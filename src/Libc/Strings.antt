-- ===== src/Libc/Strings.antt =====
-- The functions of libc/string.c that copy, measure and compare NUL-terminated strings.
use lainos_fail.Base.{
  ℕ, zero, suc, ◌+◌, ◌≡◌, ◌≢◌, ◌≤◌, ◌<◌, ◌↔◌, ◌⊎◌, refl, ap, subst, ◌∙◌, false, some, List, [], ◌∷◌,
  ◌++◌, length, ◌==◌, arith, if◌then◌else◌, update, ℤ, pos, sub_ℕ, Bool-cases, inl, inr,
}
use lainos_fail.Mem.{Ptr, Memory}
use lainos_fail.Libc.{strcmp, strcpy, skip_rest, string_end, copy_at, strcat}

-- The string `s` is at `p`, with its NUL.
abbrev pub HasString : Memory → Ptr → List ℕ → Type 0
HasString m p [] = m p ≡ 0
HasString m p (x ∷ xs) = (m p ≡ x) × (x ≢ 0) × HasString m (p + 1) xs

-- The difference of the first bytes that differ, the NULs included.
abbrev pub lexical : (s t : List ℕ) → ℤ
lexical [] [] = pos 0
lexical [] (y ∷ ys) = sub_ℕ 0 y
lexical (x ∷ xs) [] = sub_ℕ x 0
lexical (x ∷ xs) (y ∷ ys) = if x == y then lexical xs ys else sub_ℕ x y

-- `strcmp` of two strings, with more fuel than the first has bytes, is their lexical difference.
pub strcmp_lem :
    (s t : List ℕ) (fuel : ℕ) (p q : Ptr) (m : Memory)
    → length s < fuel
    → HasString m p s
    → HasString m q t
    → strcmp fuel p q m ≡ some (lexical s t)
unfolding strcmp
strcmp_lem [] [] (suc fuel) p q m lt hs ht = ground (arith, hs, ht)
strcmp_lem [] (y ∷ ys) (suc fuel) p q m lt hs ht = ground (arith, hs, ht)
strcmp_lem (x ∷ xs) [] (suc fuel) p q m lt hs ht = ground (arith, hs, ht)
strcmp_lem (x ∷ xs) (y ∷ ys) (suc fuel) p q m lt hs ht =
    let later : strcmp fuel (p + 1) (q + 1) m ≡ some (lexical xs ys) =
      strcmp_lem xs ys fuel (p + 1) (q + 1) m (omega arith) hs.2 ht.2 in
    ground (arith, hs.0, hs.1, ht.0, later)
strcmp_lem s t zero p q m lt hs ht = absurd (omega (arith, lt))

lexical-zero :
    (s t : List ℕ) (m : Memory) (p q : Ptr)
    → HasString m p s
    → HasString m q t
    → (lexical s t ≡ pos 0) ↔ (s ≡ t)
lexical-zero [] [] m p q hs ht = (λ e. refl, λ e. refl)
lexical-zero [] (y ∷ ys) m p q hs ht = (λ e. absurd (ground (arith, ht.1, e)), λ e. absurd (cc))
lexical-zero (x ∷ xs) [] m p q hs ht = (λ e. absurd (ground (arith, hs.1, e)), λ e. absurd (cc))
lexical-zero (x ∷ xs) (y ∷ ys) m p q hs ht =
    let later = lexical-zero xs ys m (p + 1) (q + 1) hs.2 ht.2 in
    elim (Bool-cases (x == y)) [
      | inl eq ↦
          let same : x ≡ y = ground (arith, eq) in
          rw eq (λ e. (let tails = later.0 e in cc), λ e. later.1 cc)
      | inr ne ↦ rw ne (λ e. absurd (ground (arith, ne, e)), λ e. absurd (ground (arith, ne, e)))
    ]

-- A string does not see a write outside it.
HasString-frame :
    (s : List ℕ) (m m' : Memory) (p : Ptr)
    → ((a : Ptr) → p ≤ a → a ≤ p + length s → m' a ≡ m a)
    → HasString m p s
    → HasString m' p s
HasString-frame [] m m' p same has = same p (omega arith) (omega arith) ∙ has
HasString-frame (x ∷ xs) m m' p same has = (
  same p (omega arith) (omega arith) ∙ has.0,
  has.1,
  HasString-frame xs m m' (p + 1) (λ a lo hi. same a (omega arith) (omega arith)) has.2,
)

-- `strcpy` of a string to an area that it does not overlap stores the string and its NUL there, and
-- touches nothing else.
pub strcpy_lem :
    (s : List ℕ) (fuel : ℕ) (d p : Ptr) (m : Memory)
    → length s < fuel
    → HasString m p s
    → (p + length s < d) ⊎ (d + length s < p)
    → (m' : Memory) × (strcpy fuel d p m ≡ some m')
      × HasString m' d s
      × ((a : Ptr) → (a < d) ⊎ (d + length s < a) → m' a ≡ m a)
unfolding strcpy
strcpy_lem [] (suc fuel) d p m lt has apart =
    rw has (_, refl, ground arith, λ a out. ground (arith, out))
strcpy_lem (x ∷ xs) (suc fuel) d p m lt has apart =
    let m₁ : Memory = update m d (m p) in
    let rest : HasString m₁ (p + 1) xs =
      HasString-frame xs m m₁ (p + 1) (λ a lo hi. ground (arith, apart)) has.2 in
    let (m₂, ran, has₂, frame) =
      strcpy_lem xs fuel (d + 1) (p + 1) m₁ (omega arith) rest (ground (arith, apart)) in
    let go : (m p == 0) ≡ false = ground (arith, has.0, has.1) in
    let first : m₂ d ≡ x = frame d (inl (omega arith)) ∙ ground (arith, has.0) in
    rw (go, ran)
      (m₂, refl, (first, has.1, has₂), λ a out. frame a (ground (arith, out)) ∙ ground (arith, out))
strcpy_lem s zero d p m lt has apart = absurd (omega (arith, lt))

-- `strcmp` returns 0 exactly on equal strings.
pub strcmp-zero :
    (s t : List ℕ) (fuel : ℕ) (p q : Ptr) (m : Memory)
    → length s < fuel
    → HasString m p s
    → HasString m q t
    → (strcmp fuel p q m ≡ some (pos 0)) ↔ (s ≡ t)
strcmp-zero s t fuel p q m lt hs ht =
    let value = strcmp_lem s t fuel p q m lt hs ht in
    let zero_iff = lexical-zero s t m p q hs ht in
    (λ e. zero_iff.0 cc, λ e. value ∙ ap (λ r. some r) (zero_iff.1 e))

skip_rest_lem :
    (x : ℕ) (s : List ℕ) (fuel : ℕ) (p : Ptr) (m : Memory)
    → length s < fuel
    → HasString m (p + 1) s
    → skip_rest fuel p m ≡ some (p + 1 + length s)
skip_rest_lem x [] (suc fuel) p m lt has = ground (arith, has)
skip_rest_lem x (y ∷ ys) (suc fuel) p m lt has =
    ground (arith, has.0, has.1, skip_rest_lem y ys fuel (p + 1) m (omega arith) has.2)
skip_rest_lem x s zero p m lt has = absurd (omega (arith, lt))

string_end_lem :
    (s : List ℕ) (fuel : ℕ) (p : Ptr) (m : Memory)
    → length s < fuel
    → HasString m p s
    → string_end fuel p m ≡ some (p + length s)
string_end_lem [] fuel p m lt has = ground (arith, has)
string_end_lem (x ∷ xs) fuel p m lt has =
    ground (arith, has.0, has.1, skip_rest_lem x xs fuel p m (omega arith) has.2)

HasString-append :
    (s t : List ℕ) (m m' : Memory) (p : Ptr)
    → HasString m p s
    → ((a : Ptr) → a < p + length s → m' a ≡ m a)
    → HasString m' (p + length s) t
    → HasString m' p (s ++ t)
HasString-append [] t m m' p has same tail = subst (λ q. HasString m' q t) (omega arith) tail
HasString-append (x ∷ xs) t m m' p has same tail = (
  same p (omega arith) ∙ has.0,
  has.1,
  HasString-append xs t m m' (p + 1) has.2 (λ a lt. same a (omega arith))
      (subst (λ q. HasString m' q t) (omega arith) tail),
)

-- `strcat` with a target that has room apart from the source stores the two strings, one after the
-- other, and touches nothing else.
pub strcat_lem :
    (s t : List ℕ) (fuel : ℕ) (d p : Ptr) (m : Memory)
    → length s < fuel
    → length t < fuel
    → HasString m d s
    → HasString m p t
    → (p + length t < d + length s) ⊎ (d + length s + length t < p)
    → (m' : Memory) × (strcat fuel d p m ≡ some m')
      × HasString m' d (s ++ t)
      × ((a : Ptr) → (a < d + length s) ⊎ (d + length s + length t < a) → m' a ≡ m a)
unfolding strcat
strcat_lem s t fuel d p m lt lt' hs ht apart =
    let at_end : string_end fuel d m ≡ some (d + length s) = string_end_lem s fuel d m lt hs in
    let (m', ran, has, frame) = strcpy_lem t fuel (d + length s) p m lt' ht apart in
    (
      m',
      ap (copy_at fuel p m) at_end ∙ ran,
      HasString-append s t m m' d hs (λ a low. frame a (inl low)) has,
      frame,
    )
