-- ===== src/Libc/Search.antt =====
-- The functions of libc/string.c that search a NUL-terminated string.
use lainos_fail.Base.{
  ℕ, zero, suc, ◌+◌, ◌%◌, ◌≡◌, ◌<◌, ap, subst, ◌∙◌, Bool, true, false, Option, none, some, List, [],
  ◌∷◌, length, ◌==◌, arith, if◌then◌else◌, Bool-cases, inl, inr,
}
use lainos_fail.Mem.{Ptr, Memory}
use lainos_fail.Libc.{strchr, is_in, strcspn, strspn, strpbrk}
use lainos_fail.Libc.Strings.{HasString}

-- The offset of the first byte equal to `c` in the string and its NUL.
abbrev pub index_of : (c : ℕ) → List ℕ → Option ℕ
index_of c [] = if c == 0 then some 0 else none
index_of c (x ∷ xs) =
    let rest = index_of c xs in
    if x == c then some 0 else elim rest [ none ↦ none | some i ↦ some (suc i) ]

abbrev pub at_offset : Ptr → Option ℕ → Option Ptr
at_offset p none = none
at_offset p (some i) = some (p + i)

-- `strchr` points at the first byte equal to the low byte of `c`, the NUL included, or is null.
pub strchr_lem :
    (s : List ℕ) (fuel : ℕ) (p : Ptr) (c : ℕ) (m : Memory)
    → length s < fuel
    → HasString m p s
    → strchr fuel p c m ≡ some (at_offset p (index_of (c % 256) s))
unfolding strchr
strchr_lem [] (suc fuel) p c m lt has = ground (arith, has)
strchr_lem (x ∷ xs) (suc fuel) p c m lt has =
    ground (arith, has.0, has.1, strchr_lem xs fuel (p + 1) c m (omega arith) has.2)
strchr_lem s zero p c m lt has = absurd (omega (arith, lt))

-- Is the byte in the string?
abbrev pub elem : (x : ℕ) → List ℕ → Bool
elem x [] = false
elem x (y ∷ ys) = if x == y then true else elem x ys

is_in_lem :
    (s : List ℕ) (fuel x : ℕ) (p : Ptr) (m : Memory)
    → length s < fuel
    → HasString m p s
    → is_in fuel x p m ≡ some (elem x s)
is_in_lem [] (suc fuel) x p m lt has = ground (arith, has)
is_in_lem (y ∷ ys) (suc fuel) x p m lt has =
    ground (arith, has.0, has.1, is_in_lem ys fuel x (p + 1) m (omega arith) has.2)
is_in_lem s zero x p m lt has = absurd (omega (arith, lt))

-- How many bytes of `s` come before the first one whose test `elem` in `set` is `sense`.
abbrev pub run_length : (sense : Bool) → (set s : List ℕ) → ℕ
run_length sense set [] = 0
run_length true set (x ∷ xs) = if elem x set then 0 else suc (run_length true set xs)
run_length false set (x ∷ xs) = if elem x set then suc (run_length false set xs) else 0

strcspn_at :
    (s set : List ℕ) (fuel set_fuel len : ℕ) (p q : Ptr) (m : Memory)
    → length s < fuel
    → length set < set_fuel
    → HasString m (p + len) s
    → HasString m q set
    → strcspn fuel set_fuel len p q m ≡ some (len + run_length true set s)
unfolding strcspn
strcspn_at [] set (suc fuel) set_fuel len p q m lt lt' hs hset = ground (arith, hs)
strcspn_at (x ∷ xs) set (suc fuel) set_fuel len p q m lt lt' hs hset =
    let next : HasString m (p + (len + 1)) xs = subst (λ a. HasString m a xs) (omega arith) hs.2 in
    let later : strcspn fuel set_fuel (len + 1) p q m ≡ some (len + 1 + run_length true set xs) =
      strcspn_at xs set fuel set_fuel (len + 1) p q m (omega arith) lt' next hset in
    let test : is_in set_fuel x q m ≡ some (elem x set) = is_in_lem set set_fuel x q m lt' hset in
    let go : (x == 0) ≡ false = ground (arith, hs.1) in
    rw (hs.0, go, test, later)
      (elim (Bool-cases (elem x set)) [
        | inl e ↦ rw e (ap (λ n. some n) (omega arith))
        | inr e ↦ rw e (ap (λ n. some n) (omega arith))
      ])
strcspn_at s set zero set_fuel len p q m lt lt' hs hset = absurd (omega (arith, lt))

strspn_at :
    (s set : List ℕ) (fuel set_fuel len : ℕ) (p q : Ptr) (m : Memory)
    → length s < fuel
    → length set < set_fuel
    → HasString m (p + len) s
    → HasString m q set
    → strspn fuel set_fuel len p q m ≡ some (len + run_length false set s)
unfolding strspn
strspn_at [] set (suc fuel) set_fuel len p q m lt lt' hs hset = ground (arith, hs)
strspn_at (x ∷ xs) set (suc fuel) set_fuel len p q m lt lt' hs hset =
    let next : HasString m (p + (len + 1)) xs = subst (λ a. HasString m a xs) (omega arith) hs.2 in
    let later : strspn fuel set_fuel (len + 1) p q m ≡ some (len + 1 + run_length false set xs) =
      strspn_at xs set fuel set_fuel (len + 1) p q m (omega arith) lt' next hset in
    let test : is_in set_fuel x q m ≡ some (elem x set) = is_in_lem set set_fuel x q m lt' hset in
    let go : (x == 0) ≡ false = ground (arith, hs.1) in
    rw (hs.0, go, test, later)
      (elim (Bool-cases (elem x set)) [
        | inl e ↦ rw e (ap (λ n. some n) (omega arith))
        | inr e ↦ rw e (ap (λ n. some n) (omega arith))
      ])
strspn_at s set zero set_fuel len p q m lt lt' hs hset = absurd (omega (arith, lt))

-- `strcspn` is the number of bytes of `s` before the first one that is in the set, and `strspn` the
-- number of bytes before the first one that is not, or the length of `s` where there is none.
pub strspn-strcspn :
    (s set : List ℕ) (fuel set_fuel : ℕ) (p q : Ptr) (m : Memory)
    → length s < fuel
    → length set < set_fuel
    → HasString m p s
    → HasString m q set
    → (strcspn fuel set_fuel 0 p q m ≡ some (run_length true set s))
      × (strspn fuel set_fuel 0 p q m ≡ some (run_length false set s))
strspn-strcspn s set fuel set_fuel p q m lt lt' hs hset =
    let has : HasString m (p + 0) s = subst (λ a. HasString m a s) (omega arith) hs in
    (
      strcspn_at s set fuel set_fuel 0 p q m lt lt' has hset ∙ ap (λ n. some n) (omega arith),
      strspn_at s set fuel set_fuel 0 p q m lt lt' has hset ∙ ap (λ n. some n) (omega arith),
    )

offset-suc :
    (p : Ptr) (n l : ℕ)
    → ◌≡◌ {A = Option (Option Ptr)}
        (some (if n == l then none else some (p + 1 + n)))
        (some (if suc n == suc l then none else some (p + suc n)))
offset-suc p n l = ground arith

strpbrk_at :
    (s set : List ℕ) (fuel set_fuel : ℕ) (p q : Ptr) (m : Memory)
    → length s < fuel
    → length set < set_fuel
    → HasString m p s
    → HasString m q set
    → strpbrk fuel set_fuel p q m
      ≡ some (if run_length true set s == length s then none else some (p + run_length true set s))
unfolding strpbrk
strpbrk_at [] set (suc fuel) set_fuel p q m lt lt' hs hset = ground (arith, hs)
strpbrk_at (x ∷ xs) set (suc fuel) set_fuel p q m lt lt' hs hset =
    let later = strpbrk_at xs set fuel set_fuel (p + 1) q m (omega arith) lt' hs.2 hset in
    let test : is_in set_fuel x q m ≡ some (elem x set) = is_in_lem set set_fuel x q m lt' hset in
    let go : (x == 0) ≡ false = ground (arith, hs.1) in
    rw (hs.0, go, test, later)
      (elim (Bool-cases (elem x set)) [
        | inl e ↦ rw e (ground arith)
        | inr e ↦ rw e (offset-suc p (run_length true set xs) (length xs))
      ])
strpbrk_at s set zero set_fuel p q m lt lt' hs hset = absurd (omega (arith, lt))

-- `strpbrk` points at the byte where `strcspn` stops, or is null where that is the end.
pub strpbrk-strcspn :
    (s set : List ℕ) (fuel set_fuel : ℕ) (p q : Ptr) (m : Memory)
    → length s < fuel
    → length set < set_fuel
    → HasString m p s
    → HasString m q set
    → (n : ℕ) × (strcspn fuel set_fuel 0 p q m ≡ some n)
      × (strpbrk fuel set_fuel p q m ≡ some (if n == length s then none else some (p + n)))
strpbrk-strcspn s set fuel set_fuel p q m lt lt' hs hset = (
  run_length true set s,
  (strspn-strcspn s set fuel set_fuel p q m lt lt' hs hset).0,
  strpbrk_at s set fuel set_fuel p q m lt lt' hs hset,
)
