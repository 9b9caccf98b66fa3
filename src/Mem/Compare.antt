-- ===== src/Mem/Compare.antt =====
-- `memcmp` and `strncmp` of kernel/string.c.
use lainos_fail.Base.{
  ℕ, zero, suc, ◌+◌, ◌≡◌, ◌↔◌, refl, List, [], ◌∷◌, arith, ◌==◌, if◌then◌else◌, ℤ, pos, sub_ℕ,
}
use lainos_fail.Mem.{Ptr, Memory, memcmp, strncmp}

-- the `n` bytes at `p`
abbrev pub bytes : Memory → Ptr → ℕ → List ℕ
bytes m p zero = []
bytes m p (suc n) = m p ∷ bytes m (p + 1) n

-- the C string at `p`, without its NUL, cut off after `n` bytes
abbrev pub text : Memory → Ptr → ℕ → List ℕ
text m p zero = []
text m p (suc n) = let rest = m p ∷ text m (p + 1) n in if m p == 0 then [] else rest

-- The sign of a comparison of two byte lists of one length: the first difference decides.
abbrev pub lexical : List ℕ → List ℕ → ℤ
lexical (x ∷ xs) (y ∷ ys) = if x == y then lexical xs ys else sub_ℕ x y
lexical [] [] = pos 0
lexical [] (y ∷ ys) = pos 0
lexical (x ∷ xs) [] = pos 0

-- `memcmp` returns the difference of the first two bytes that differ, and 0 when none do.
pub memcmp-lexical :
    (n : ℕ) (s1 s2 : Ptr) (m : Memory) → memcmp n s1 s2 m ≡ lexical (bytes m s1 n) (bytes m s2 n)
unfolding memcmp
memcmp-lexical zero s1 s2 m = refl
memcmp-lexical (suc n) s1 s2 m = ground (arith, memcmp-lexical n (s1 + 1) (s2 + 1) m)

-- `strncmp` returns 0 exactly when the two strings are equal up to their NUL or `n` bytes.
pub strncmp-zero :
    (n : ℕ) (p q : Ptr) (m : Memory) → (strncmp n p q m ≡ pos 0) ↔ (text m p n ≡ text m q n)
unfolding strncmp
strncmp-zero zero p q m = (λ h. refl, λ h. refl)
strncmp-zero (suc n) p q m =
    let ih = strncmp-zero n (p + 1) (q + 1) m in
    (λ h. ground (arith, ih.0), λ h. ground (arith, ih.1))
