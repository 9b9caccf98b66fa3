-- ===== src/Mem/Copy.antt =====
-- `strncpy`, `safestrcpy` and `strlen` of kernel/string.c.
use lainos_fail.Base.{
  ℕ, zero, suc, ◌+◌, ◌-◌, ◌≤◌, ◌<◌, ◌≡◌, ◌≢◌, ◌⊎◌, refl, ap, ap₂, sym, ◌∙◌, true, false, List, [],
  ◌∷◌, some, arith, ◌==◌, Bool-cases, inl, inr, if◌then◌else◌, update, replicate, pos,
}
use lainos_fail.Mem.{Ptr, Memory, zero_rest, strncmp, strncpy, safe_loop, safestrcpy, strlen}
use lainos_fail.Mem.Compare.{bytes, text, strncmp-zero}

-- the string at `t`, cut off or filled up with NULs to `n` bytes
abbrev pub padded : Memory → Ptr → ℕ → List ℕ
padded m t zero = []
padded m t (suc n) =
    let rest = m t ∷ padded m (t + 1) n in if m t == 0 then replicate (suc n) 0 else rest

-- The address lies outside `n` bytes from `p` on.
abbrev pub Outside : (a p : Ptr) → ℕ → Type 0
Outside a p n = (a < p) ⊎ (p + n ≤ a)

abbrev pub Apart : (s t : Ptr) → ℕ → Type 0
Apart s t n = (s + n ≤ t) ⊎ (t + n ≤ s)

padded-update :
    (n : ℕ) (t s : Ptr) (c : ℕ) (m : Memory)
    → Outside s t n
    → padded (update m s c) t n ≡ padded m t n
padded-update zero t s c m h = refl
padded-update (suc n) t s c m h =
    let here : update m s c t ≡ m t = ground arith in
    rw (here, padded-update n (t + 1) s c m (omega arith))

zero_rest-frame : (n : ℕ) (s : Ptr) (m : Memory) (a : Ptr) → Outside a s n → zero_rest n s m a ≡ m a
unfolding zero_rest
zero_rest-frame zero s m a h = refl
zero_rest-frame (suc n) s m a h =
    zero_rest-frame n (s + 1) (update m s 0) a (omega arith) ∙ ground arith

bytes-zero_rest : (n : ℕ) (s : Ptr) (m : Memory) → bytes (zero_rest n s m) s n ≡ replicate n 0
unfolding zero_rest
bytes-zero_rest zero s m = refl
bytes-zero_rest (suc n) s m =
    ap₂ ◌∷◌ (zero_rest-frame n (s + 1) (update m s 0) s (omega arith) ∙ ground arith)
      (bytes-zero_rest n (s + 1) (update m s 0))

-- `strncpy` writes nothing outside its `n` bytes.
pub strncpy-frame :
    (n : ℕ) (s t : Ptr) (m : Memory) (a : Ptr) → Outside a s n → strncpy n s t m a ≡ m a
unfolding strncpy
strncpy-frame zero s t m a h = refl
strncpy-frame (suc n) s t m a h = elim (Bool-cases (m t == 0)) [
  | inl end ↦ rw end (zero_rest-frame n (s + 1) (update m s (m t)) a (omega arith) ∙ ground arith)
  | inr more ↦
      rw more (strncpy-frame n (s + 1) (t + 1) (update m s (m t)) a (omega arith) ∙ ground arith)
]

strncpy_end :
    (n : ℕ) (s t : Ptr) (m : Memory)
    → (m t == 0) ≡ true
    → strncpy (suc n) s t m ≡ zero_rest n (s + 1) (update m s (m t))
unfolding strncpy
strncpy_end n s t m h = rw h

strncpy_more :
    (n : ℕ) (s t : Ptr) (m : Memory)
    → (m t == 0) ≡ false
    → strncpy (suc n) s t m ≡ strncpy n (s + 1) (t + 1) (update m s (m t))
unfolding strncpy
strncpy_more n s t m h = rw h

-- `strncpy` stores the string and fills up with NULs, when source and target are apart.
pub bytes-strncpy :
    (n : ℕ) (s t : Ptr) (m : Memory) → Apart s t n → bytes (strncpy n s t m) s n ≡ padded m t n
bytes-strncpy zero s t m h = refl
bytes-strncpy (suc n) s t m h = elim (Bool-cases (m t == 0)) [
  | inl end ↦
      let m' = update m s (m t) in
      rw end (
        ap (λ r. bytes r s (suc n)) (strncpy_end n s t m end)
        ∙ ap₂ ◌∷◌ (zero_rest-frame n (s + 1) m' s (omega arith) ∙ ground arith)
            (bytes-zero_rest n (s + 1) m'))
  | inr more ↦
      let m' = update m s (m t) in
      rw more (
        ap (λ r. bytes r s (suc n)) (strncpy_more n s t m more)
        ∙ ap₂ ◌∷◌ (strncpy-frame n (s + 1) (t + 1) m' s (omega arith) ∙ ground arith) (
            bytes-strncpy n (s + 1) (t + 1) m' (omega arith)
            ∙ padded-update n (t + 1) s (m t) m (omega arith)))
]

text-padded :
    (n : ℕ) (p q : Ptr) (m m' : Memory) → bytes m' p n ≡ padded m q n → text m' p n ≡ text m q n
text-padded zero p q m m' h = refl
text-padded (suc n) p q m m' h = elim (Bool-cases (m q == 0)) [
  | inl end ↦ let e : bytes m' p (suc n) ≡ replicate (suc n) 0 = h ∙ rw end in rw end (ground arith)
  | inr more ↦
      let e : bytes m' p (suc n) ≡ m q ∷ padded m (q + 1) n = h ∙ rw more in
      ground (arith, text-padded n (p + 1) (q + 1) m m')
]

-- `strncpy` between areas that are apart stores the string of the source, cut off at `n` bytes or
-- filled up with NULs, and changes no byte outside the `n` bytes of the target.
pub strncpy_lem :
    (n : ℕ) (s t : Ptr) (m : Memory)
    → Apart s t n
    → (bytes (strncpy n s t m) s n ≡ padded m t n)
      × ((a : Ptr) → Outside a s n → strncpy n s t m a ≡ m a)
strncpy_lem n s t m h = (bytes-strncpy n s t m h, strncpy-frame n s t m)

text-agree :
    (n : ℕ) (p : Ptr) (m m' : Memory)
    → ((a : Ptr) → p ≤ a → a < p + n → m' a ≡ m a)
    → text m' p n ≡ text m p n
text-agree zero p m m' h = refl
text-agree (suc n) p m m' h =
    let here = h p (omega arith) (omega arith) in
    rw (here, text-agree n (p + 1) m m' (λ a lo hi. h a (omega arith) (omega arith)))

-- A name that `strncpy` has stored compares equal to its source by `strncmp` of the same length:
-- what `dirlink` writes, `dirlookup` finds.
pub strncmp-strncpy :
    (n : ℕ) (s t : Ptr) (m : Memory)
    → Apart s t n
    → let m' = strncpy n s t m in strncmp n t s m' ≡ pos 0
strncmp-strncpy n s t m h =
    let m' = strncpy n s t m in
    (strncmp-zero n t s m').1 (
      text-agree n t m m' (λ a lo hi. strncpy-frame n s t m a (omega arith))
      ∙ sym (text-padded n s t m m' (bytes-strncpy n s t m h)))

safe_loop-frame :
    (k : ℕ) (s t : Ptr) (m : Memory) (a : Ptr) → Outside a s (suc k) → safe_loop k s t m a ≡ m a
unfolding safe_loop
safe_loop-frame zero s t m a h = ground arith
safe_loop-frame (suc k) s t m a h = elim (Bool-cases (m t == 0)) [
  | inl end ↦ rw end (ground arith)
  | inr more ↦
      rw more (safe_loop-frame k (s + 1) (t + 1) (update m s (m t)) a (omega arith) ∙ ground arith)
]

safe_loop_end : (k : ℕ) (s t : Ptr) (m : Memory) → (m t == 0) ≡ true → safe_loop (suc k) s t m s ≡ 0
unfolding safe_loop
safe_loop_end k s t m h = rw h (ground arith)

safe_loop_more :
    (k : ℕ) (s t : Ptr) (m : Memory)
    → (m t == 0) ≡ false
    → safe_loop (suc k) s t m ≡ safe_loop k (s + 1) (t + 1) (update m s (m t))
unfolding safe_loop
safe_loop_more k s t m h = rw h

safe_loop_last : (s t : Ptr) (m : Memory) → safe_loop zero s t m s ≡ 0
unfolding safe_loop
safe_loop_last s t m = ground arith

text-safe_loop :
    (k : ℕ) (s t : Ptr) (m : Memory)
    → Apart s t (suc k)
    → text (safe_loop k s t m) s (suc k) ≡ text m t k
text-safe_loop zero s t m h = rw (safe_loop_last s t m)
text-safe_loop (suc k) s t m h = elim (Bool-cases (m t == 0)) [
  | inl end ↦ let z = safe_loop_end k s t m end in ground arith
  | inr more ↦
      let m' = update m s (m t) in
      let head : safe_loop k (s + 1) (t + 1) m' s ≡ m t =
        safe_loop-frame k (s + 1) (t + 1) m' s (omega arith) ∙ ground arith in
      ap (λ r. text r s (suc (suc k))) (safe_loop_more k s t m more)
      ∙ rw (head, more)
          (ap (λ r. m t ∷ r)
            (text-safe_loop k (s + 1) (t + 1) m' (omega arith)
              ∙ text-agree k (t + 1) m m' (λ a lo hi. ground arith)))
]

safestrcpy_loop : (k : ℕ) (s t : Ptr) (m : Memory) → safestrcpy (suc k) s t m ≡ safe_loop k s t m
unfolding safestrcpy
safestrcpy_loop k s t m = let e : suc k - 1 ≡ k = omega arith in rw e (ground arith)

-- `safestrcpy` into `n` bytes, at least one, apart from the source leaves there the source's
-- string cut off after `n - 1` bytes, so the target is always terminated, and changes no byte
-- outside.
pub safestrcpy_lem :
    (n : ℕ) (s t : Ptr) (m : Memory)
    → 0 < n
    → Apart s t n
    → (text (safestrcpy n s t m) s n ≡ text m t (n - 1))
      × ((a : Ptr) → Outside a s n → safestrcpy n s t m a ≡ m a)
safestrcpy_lem zero s t m h apart = absurd (omega arith)
safestrcpy_lem (suc k) s t m h apart =
    let e : suc k - 1 ≡ k = omega arith in
    let step = safestrcpy_loop k s t m in
    (
      ap (λ r. text r s (suc k)) step ∙ text-safe_loop k s t m apart ∙ rw e,
      λ a out. ap (λ r. r a) step ∙ safe_loop-frame k s t m a out,
    )

-- `strlen` finds the first NUL, whenever its fuel exceeds the length.
pub strlen_lem :
    (fuel n k : ℕ) (s : Ptr) (m : Memory)
    → ((i : ℕ) → n ≤ i → i < n + k → m (s + i) ≢ 0)
    → m (s + (n + k)) ≡ 0
    → k < fuel
    → strlen fuel n s m ≡ some (n + k)
unfolding strlen
strlen_lem zero n k s m before at h = absurd (omega arith)
strlen_lem (suc fuel) n zero s m before at h =
    let e : n + 0 ≡ n = omega arith in let end : m (s + n) ≡ 0 = rw (← e) at in ground arith
strlen_lem (suc fuel) n (suc k) s m before at h =
    let e : n + suc k ≡ n + 1 + k = omega arith in
    let here = before n (omega arith) (omega arith) in
    let next =
      strlen_lem fuel (n + 1) k s m (λ i lo hi. before i (omega arith) (omega arith)) (rw (← e) at)
        (omega arith) in
    ground (arith, e)
