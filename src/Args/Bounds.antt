-- ===== src/Args/Bounds.antt =====
-- The arguments that kernel/syscall.c accepts lie in the memory of the process.
use lainos_fail.Base.{
  ℕ, zero, suc, ◌+◌, ◌-◌, ◌^◌, ◌≡◌, ◌≢◌, ◌≤◌, ◌<◌, some, ◌==◌, arith, Bool-cases, Option-cases, inl,
  inr,
}
use lainos_fail.Mem.{Ptr, Memory}
use lainos_fail.Args.{find_nul, fetchstr, argint, argptr, argstr}

find_nul_lem :
    (k : ℕ) (s e : Ptr) (m : Memory)
    → find_nul k s m ≡ some e
    → (s ≤ e) × (e < s + k) × (m e ≡ 0) × ((a : Ptr) → s ≤ a → a < e → m a ≢ 0)
unfolding find_nul
find_nul_lem zero s e m eq = absurd (ground (arith, eq))
find_nul_lem (suc k) s e m eq = elim (Bool-cases (m s == 0)) [
  | inl nul ↦
      let here : s ≡ e = ground (arith, eq, nul) in
      (omega arith, omega arith, ground (arith, here, nul), λ a lo hi. absurd (omega arith))
  | inr other ↦
      let (lo, hi, nul, rest) = find_nul_lem k (s + 1) e m (ground (arith, eq, other)) in
      (
        omega arith,
        omega arith,
        nul,
        λ a low high. elim (Bool-cases (a == s)) [
          | inl same ↦ ground (arith, same, other)
          | inr ne ↦ rest a (ground (arith, ne, low)) high
        ],
      )
]

-- A string that `argstr` accepts ends at a NUL inside the process, and the length that it returns is
-- that of the bytes before the first NUL.
pub argstr_lem :
    (sz esp n : ℕ) (m : Memory) (p : Ptr) (len : ℕ)
    → argstr sz esp n m ≡ some (p, len)
    → (p + len < sz) × (m (p + len) ≡ 0) × ((i : ℕ) → i < len → m (p + i) ≢ 0)
unfolding argstr fetchstr
argstr_lem sz esp n m p len eq = elim (Option-cases (argint sz esp n m)) [
  | inl bad ↦ absurd (ground (arith, eq, bad))
  | inr (addr, got) ↦ elim (Option-cases (find_nul (sz - addr) addr m)) [
    | inl nowhere ↦ absurd (ground (arith, eq, got, nowhere))
    | inr (e, found) ↦
        let inside : addr < sz = ground (arith, eq, got) in
        let at : addr ≡ p = ground (arith, eq, got, found) in
        let size : e - addr ≡ len = ground (arith, eq, got, found) in
        let (lo, hi, nul, before) = find_nul_lem (sz - addr) addr e m found in
        let stop : p + len ≡ e = omega arith in
        (omega arith, rw stop nul, λ i lt. before (p + i) (omega arith) (omega arith))
  ]
]

-- A block of a size below 2 ^ 31 that `argptr` accepts lies in a process of at most 2 ^ 31 bytes.
pub argptr_lem :
    (sz esp n size : ℕ) (m : Memory) (p : Ptr)
    → sz ≤ 2 ^ 31
    → size < 2 ^ 31
    → argptr sz esp n size m ≡ some p
    → (p < sz) × (p + size ≤ sz)
unfolding argptr
argptr_lem sz esp n size m p fits small eq = elim (Option-cases (argint sz esp n m)) [
  | inl bad ↦ absurd (ground (arith, eq, bad))
  | inr (i, got) ↦ ground (arith, eq, got)
]
