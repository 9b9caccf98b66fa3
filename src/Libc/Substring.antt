-- ===== src/Libc/Substring.antt =====
-- `strstr` of libc/string.c.
use lainos_fail.Base.{
  ℕ, zero, suc, ◌+◌, ◌≡◌, ◌≢◌, ◌<◌, ◌≤◌, refl, sym, ap, ◌∙◌, Bool, true, false, Option, none, some,
  List, [], ◌∷◌, ◌++◌, length, ◌==◌, arith, if◌then◌else◌, Bool-cases, Option-cases, inl, inr,
}
use lainos_fail.Mem.{Ptr, Memory}
use lainos_fail.Libc.{is_at, strstr}
use lainos_fail.Libc.Strings.{HasString}
use lainos_fail.Libc.Search.{at_offset}

abbrev pub is_prefix : (t s : List ℕ) → Bool
is_prefix [] s = true
is_prefix (y ∷ ys) [] = false
is_prefix (y ∷ ys) (x ∷ xs) = if x == y then is_prefix ys xs else false

-- The offset of the first byte of `s` at which `t` begins.
abbrev pub offset_of : (t s : List ℕ) → Option ℕ
offset_of t [] = none
offset_of t (x ∷ xs) =
    let rest = offset_of t xs in
    if is_prefix t (x ∷ xs) then some 0 else elim rest [ none ↦ none | some i ↦ some (suc i) ]

is_at_lem :
    (t s : List ℕ) (fuel : ℕ) (p q : Ptr) (m : Memory)
    → length t < fuel
    → HasString m p s
    → HasString m q t
    → is_at fuel p q m ≡ some (is_prefix t s)
unfolding is_at
is_at_lem [] s (suc fuel) p q m lt hs ht = ground (arith, ht)
is_at_lem (y ∷ ys) [] (suc fuel) p q m lt hs ht = ground (arith, hs, ht.0, ht.1)
is_at_lem (y ∷ ys) (x ∷ xs) (suc fuel) p q m lt hs ht =
    let later : is_at fuel (p + 1) (q + 1) m ≡ some (is_prefix ys xs) =
      is_at_lem ys xs fuel (p + 1) (q + 1) m (omega arith) hs.2 ht.2 in
    ground (arith, hs.0, ht.0, ht.1, later)
is_at_lem t s zero p q m lt hs ht = absurd (omega (arith, lt))

strstr_at :
    (s t : List ℕ) (fuel set_fuel : ℕ) (p q : Ptr) (m : Memory)
    → length s < fuel
    → length t < set_fuel
    → HasString m p s
    → HasString m q t
    → strstr fuel set_fuel p q m ≡ some (at_offset p (offset_of t s))
unfolding strstr
strstr_at [] t (suc fuel) set_fuel p q m lt lt' hs ht = ground (arith, hs)
strstr_at (x ∷ xs) t (suc fuel) set_fuel p q m lt lt' hs ht =
    let later : strstr fuel set_fuel (p + 1) q m ≡ some (at_offset (p + 1) (offset_of t xs)) =
      strstr_at xs t fuel set_fuel (p + 1) q m (omega arith) lt' hs.2 ht in
    let test : is_at set_fuel p q m ≡ some (is_prefix t (x ∷ xs)) =
      is_at_lem t (x ∷ xs) set_fuel p q m lt' hs ht in
    let go : (m p == 0) ≡ false = ground (arith, hs.0, hs.1) in
    rw (go, test, later)
      (elim (Bool-cases (is_prefix t (x ∷ xs))) [
        | inl e ↦ rw e (ap (λ a. some (some a)) (omega arith))
        | inr e ↦ rw e (elim (Option-cases (offset_of t xs)) [
          | inl nowhere ↦ rw nowhere refl
          | inr (i, found) ↦ rw found (ap (λ a. some (some a)) (omega arith))
        ])
      ])
strstr_at s t zero set_fuel p q m lt lt' hs ht = absurd (omega (arith, lt))

is_prefix-append : (t s : List ℕ) → is_prefix t s ≡ true → (post : List ℕ) × (s ≡ t ++ post)
is_prefix-append [] s e = (s, refl)
is_prefix-append (y ∷ ys) [] e = absurd (ground (arith, e))
is_prefix-append (y ∷ ys) (x ∷ xs) e =
    let same : x ≡ y = ground (arith, e) in
    let (post, split) = is_prefix-append ys xs (ground (arith, e)) in (post, cc)

is_prefix_self : (t post : List ℕ) → is_prefix t (t ++ post) ≡ true
is_prefix_self [] post = refl
is_prefix_self (y ∷ ys) post = ground (arith, is_prefix_self ys post)

offset_of-found :
    (t s : List ℕ) (i : ℕ)
    → offset_of t s ≡ some i
    → (pre post : List ℕ) × (s ≡ pre ++ (t ++ post)) × (length pre ≡ i)
offset_of-found t [] i e = absurd (ground (arith, e))
offset_of-found t (x ∷ xs) i e = elim (Bool-cases (is_prefix t (x ∷ xs))) [
  | inl here ↦
      let (post, split) = is_prefix-append t (x ∷ xs) here in
      ([], post, split, ground (arith, e, here))
  | inr other ↦ elim (Option-cases (offset_of t xs)) [
    | inl nowhere ↦ absurd (ground (arith, e, other, nowhere))
    | inr (j, found) ↦
        let (pre, post, split, size) = offset_of-found t xs j found in
        (x ∷ pre, post, ap (λ r. x ∷ r) split, ground (arith, e, other, found, size))
  ]
]

offset_of-here : (t s : List ℕ) → is_prefix t s ≡ true → s ≢ [] → offset_of t s ≡ some 0
offset_of-here t [] e ne = absurd (ne refl)
offset_of-here t (x ∷ xs) e ne = rw e refl

append-cons : (xs : List ℕ) (y : ℕ) (ys : List ℕ) → xs ++ (y ∷ ys) ≢ []
append-cons [] y ys e = absurd (ground (arith, e))
append-cons (x ∷ xs) y ys e = absurd (ground (arith, e))

offset_of-least :
    (t pre post : List ℕ)
    → pre ++ (t ++ post) ≢ []
    → (i : ℕ) × (offset_of t (pre ++ (t ++ post)) ≡ some i) × (i ≤ length pre)
offset_of-least t [] post ne =
    (0, offset_of-here t (t ++ post) (is_prefix_self t post) ne, omega arith)
offset_of-least [] (x ∷ xs) post ne = (0, refl, omega arith)
offset_of-least (y ∷ ys) (x ∷ xs) post ne =
    let later : List ℕ = xs ++ ((y ∷ ys) ++ post) in
    elim (Bool-cases (is_prefix (y ∷ ys) (x ∷ later))) [
      | inl here ↦ (0, rw here refl, omega arith)
      | inr other ↦
          let (j, found, low) = offset_of-least (y ∷ ys) xs post (append-cons xs y (ys ++ post)) in
          (suc j, rw (other, found) refl, omega arith)
    ]

-- Where the string `t` is in `s`: nowhere, or first after `i` bytes.
abbrev pub IsFirst : (t s : List ℕ) → Option ℕ → Type 0
IsFirst t s none = (pre post : List ℕ) → s ≢ pre ++ (t ++ post)
IsFirst t s (some i) =
    ((pre post : List ℕ) × (s ≡ pre ++ (t ++ post)) × (length pre ≡ i))
    × ((pre post : List ℕ) → s ≡ pre ++ (t ++ post) → i ≤ length pre)

offset_of-IsFirst : (t s : List ℕ) → s ≢ [] → (r : Option ℕ) × (offset_of t s ≡ r) × IsFirst t s r
offset_of-IsFirst t s ne = elim (Option-cases (offset_of t s)) [
  | inl nowhere ↦ (
    none,
    nowhere,
    λ pre post split.
        let (i, found, low) = offset_of-least t pre post (λ e. ne (split ∙ e)) in
        absurd (ground (arith, sym nowhere ∙ ap (λ r. offset_of t r) split ∙ found)),
  )
  | inr (i, found) ↦ (
    some i,
    found,
    (
      offset_of-found t s i found,
      λ pre post split.
          let (j, found', low) = offset_of-least t pre post (λ e. ne (split ∙ e)) in
          let same : some i ≡ some j = sym found ∙ ap (λ r. offset_of t r) split ∙ found' in
          ground (arith, same, low),
    ),
  )
]

-- `strstr` in a string that is not empty points at the first occurrence of the other string, and is
-- null exactly where there is none.
pub strstr_lem :
    (s t : List ℕ) (fuel set_fuel : ℕ) (p q : Ptr) (m : Memory)
    → length s < fuel
    → length t < set_fuel
    → s ≢ []
    → HasString m p s
    → HasString m q t
    → (r : Option ℕ) × (strstr fuel set_fuel p q m ≡ some (at_offset p r)) × IsFirst t s r
strstr_lem s t fuel set_fuel p q m lt lt' ne hs ht =
    let (r, at, first) = offset_of-IsFirst t s ne in
    (r, strstr_at s t fuel set_fuel p q m lt lt' hs ht ∙ ap (λ o. some (at_offset p o)) at, first)

-- `strstr` of the empty string in the empty string is null, though it occurs there.
pub strstr-empty :
    (fuel set_fuel : ℕ) (p q : Ptr) (m : Memory)
    → 0 < fuel
    → 0 < set_fuel
    → HasString m p []
    → HasString m q []
    → (strstr fuel set_fuel p q m ≡ some none) × ¬ IsFirst [] [] none
strstr-empty fuel set_fuel p q m lt lt' hs ht =
    (strstr_at [] [] fuel set_fuel p q m lt lt' hs ht, λ nowhere. nowhere [] [] refl)
