-- ===== src/Libc/Blocks.antt =====
-- The functions of libc/string.c that run up to a count: blocks of bytes and strings with a bound.
-- Those that kernel/string.c has too agree with it, though their loops differ.
use lainos_fail.Base.{
  ℕ, zero, suc, ◌+◌, ◌-◌, ◌%◌, ◌≡◌, refl, sym, ◌∙◌, not, ◌&&◌, Option, none, some, leb, ◌==◌, arith,
  if◌then◌else◌, update, ℤ, pos, sub_ℕ, Bool-cases, inl, inr,
}
use lainos_fail.Mem.{Ptr, Memory, copy_up, copy_down, zero_rest}
use lainos_fail.Mem
use lainos_fail.Mem.Move.{copy_up-moved, copy_down-moved, memmove_lem}

unfoldable pub memchr : (n : ℕ) → (p : Ptr) → (c : ℕ) → Memory → Option Ptr
memchr zero p c m = none
memchr (suc n) p c m = let rest = memchr n (p + 1) c m in if m p == c % 256 then some p else rest

unfoldable pub memcmp : (n : ℕ) → (p1 p2 : Ptr) → Memory → ℤ
memcmp zero p1 p2 m = pos 0
memcmp (suc n) p1 p2 m =
    let rest = memcmp n (p1 + 1) (p2 + 1) m in
    if not (m p1 == m p2) then sub_ℕ (m p1) (m p2) else rest

unfoldable pub memcpy : (dest src : Ptr) → ℕ → Memory → Memory
memcpy dest src n m = copy_up n dest src m

unfoldable pub memmove : (dest src : Ptr) → ℕ → Memory → Memory
memmove dest src n m =
    if leb dest src then copy_up n dest src m else copy_down n (dest + n) (src + n) m

unfoldable pub memset : (p : Ptr) → (c n : ℕ) → Memory → Memory
memset p c zero m = m
memset p c (suc n) m = memset (p + 1) c n (update m p (c % 256))

-- The loop, and what follows it.
unfoldable pub strncmp : (n : ℕ) → (s1 s2 : Ptr) → Memory → ℤ
strncmp zero s1 s2 m = pos 0
strncmp (suc n) s1 s2 m =
    let rest = strncmp n (s1 + 1) (s2 + 1) m in
    if not (m s1 == 0) && (m s1 == m s2) then rest else sub_ℕ (m s1) (m s2)

-- The first loop; where it stops at a NUL, `n` still counts that byte, and the second loop has one
-- round less.
unfoldable pub strncpy : (n : ℕ) → (s1 s2 : Ptr) → Memory → Memory
strncpy zero s1 s2 m = m
strncpy (suc n) s1 s2 m =
    let m' = update m s1 (m s2) in
    let rest = strncpy n (s1 + 1) (s2 + 1) m' in
    if not (m s2 == 0) then rest else zero_rest (suc n - 1) (s1 + 1) m'

strncpy_agrees : (n : ℕ) (s t : Ptr) (m : Memory) → strncpy n s t m ≡ Mem.strncpy n s t m
unfolding strncpy Mem.strncpy
strncpy_agrees zero s t m = refl
strncpy_agrees (suc n) s t m =
    let less : suc n - 1 ≡ n = omega arith in
    rw (less, strncpy_agrees n (s + 1) (t + 1) (update m s (m t))) refl

strncmp_agrees : (n : ℕ) (s t : Ptr) (m : Memory) → strncmp n s t m ≡ Mem.strncmp n s t m
unfolding strncmp Mem.strncmp
strncmp_agrees zero s t m = refl
strncmp_agrees (suc n) s t m = rw (strncmp_agrees n (s + 1) (t + 1) m) refl

memcmp_agrees : (n : ℕ) (s t : Ptr) (m : Memory) → memcmp n s t m ≡ Mem.memcmp n s t m
unfolding memcmp Mem.memcmp
memcmp_agrees zero s t m = refl
memcmp_agrees (suc n) s t m = rw (memcmp_agrees n (s + 1) (t + 1) m) refl

memmove_agrees :
    (d s : Ptr) (n : ℕ) (m : Memory) (a : Ptr) → memmove d s n m a ≡ Mem.memmove d s n m a
unfolding memmove
memmove_agrees d s n m a = elim (Bool-cases (leb d s)) [
  | inl up ↦ rw up (copy_up-moved n d s m a (ground arith) ∙ sym (memmove_lem d s n m a))
  | inr down ↦ rw down (copy_down-moved n d s m a (ground arith) ∙ sym (memmove_lem d s n m a))
]

-- `memmove`, `strncpy`, `strncmp` and `memcmp` of the C library do and return what those of the kernel
-- do and return, for all arguments, overlapping areas included.
pub routines_agree :
    (s t : Ptr) (n : ℕ) (m : Memory)
    → ((a : Ptr) → memmove s t n m a ≡ Mem.memmove s t n m a)
      × (strncpy n s t m ≡ Mem.strncpy n s t m)
      × (strncmp n s t m ≡ Mem.strncmp n s t m)
      × (memcmp n s t m ≡ Mem.memcmp n s t m)
routines_agree s t n m =
    (memmove_agrees s t n m, strncpy_agrees n s t m, strncmp_agrees n s t m, memcmp_agrees n s t m)
