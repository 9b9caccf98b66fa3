-- ===== src/Files/Count.antt =====
-- How often the descriptors refer to a file: sums over the descriptors and over the processes.
use lainos_fail.Proc.{nproc, nofile}
use lainos_fail.Base.{
  ℕ, zero, suc, ◌+◌, ◌≡◌, ◌≢◌, ◌≤◌, ◌<◌, refl, Option, none, some, ◌==◌, arith, if◌then◌else◌,
  update, update_self, update_ne, ap, subst, Bool-cases, inl, inr,
}

unfoldable pub sum : (n : ℕ) → (ℕ → ℕ) → ℕ
sum zero g = 0
sum (suc n) g = sum n g + g n

abbrev pub one_if : Option ℕ → (f : ℕ) → ℕ
one_if none f = 0
one_if (some g) f = if g == f then 1 else 0

-- The `n` first descriptors that refer to `f`.
abbrev pub uses : (n : ℕ) → (ℕ → Option ℕ) → (f : ℕ) → ℕ
uses n o f = sum n (λ fd. one_if (o fd) f)

-- Of the first `n` entries at most one changes.
sum-same : (n : ℕ) (g h : ℕ → ℕ) → ((i : ℕ) → i < n → h i ≡ g i) → sum n h ≡ sum n g
unfolding sum
sum-same zero g h same = refl
sum-same (suc n) g h same =
    ground (arith, sum-same n g h (λ i lt. same i (omega arith)), same n (omega arith))

pub sum-change :
    (n i : ℕ) (g h : ℕ → ℕ) → i < n → ((j : ℕ) → j ≢ i → h j ≡ g j) → sum n h + g i ≡ sum n g + h i
unfolding sum
sum-change zero i g h lt same = ground arith
sum-change (suc n) i g h lt same = elim (Bool-cases (n == i)) [
  | inl eq ↦
      let here : n ≡ i = ground arith in
      let below : sum i h ≡ sum i g = sum-same i g h (λ j lt'. same j (omega arith)) in
      rw here (omega (arith, below))
  | inr other ↦
      let ne : n ≢ i = ground arith in
      omega (arith, sum-change n i g h (omega arith) same, same n ne)
]

pub sum-member : (n i : ℕ) (g : ℕ → ℕ) → i < n → g i ≤ sum n g
unfolding sum
sum-member zero i g lt = ground arith
sum-member (suc n) i g lt = ground (arith, sum-member n i g)

-- All descriptors of all processes that refer to `f`.
unfoldable pub total : (ℕ → ℕ → Option ℕ) → (f : ℕ) → ℕ
total o f = sum nproc (λ p. uses nofile (o p) f)

-- One descriptor changes.
pub total-change :
    (o : ℕ → ℕ → Option ℕ) (me fd : ℕ) (v : Option ℕ) (f : ℕ)
    → me < nproc
    → fd < nofile
    → total (update o me (update (o me) fd v)) f + one_if (o me fd) f ≡ total o f + one_if v f
unfolding total
total-change o me fd v f lt lt' =
    let o₁ : ℕ → Option ℕ = update (o me) fd v in
    let outer : total (update o me o₁) f + uses nofile (o me) f ≡ total o f + uses nofile o₁ f =
      subst (λ x. total (update o me o₁) f + uses nofile (o me) f ≡ total o f + uses nofile x f)
        (update_self o me o₁)
        (sum-change nproc me (λ p. uses nofile (o p) f) (λ p. uses nofile (update o me o₁ p) f) lt
          (λ j ne. ap (λ x. uses nofile x f) (update_ne o me o₁ j ne))) in
    let inner : uses nofile o₁ f + one_if (o me fd) f ≡ uses nofile (o me) f + one_if v f =
      subst (λ x. uses nofile o₁ f + one_if (o me fd) f ≡ uses nofile (o me) f + one_if x f)
        (update_self (o me) fd v)
        (sum-change nofile fd (λ d. one_if (o me d) f) (λ d. one_if (o₁ d) f) lt'
          (λ j ne. ap (λ x. one_if x f) (update_ne (o me) fd v j ne))) in
    omega (arith, outer, inner)

-- A descriptor that refers to `f` is counted.
pub total-member :
    (o : ℕ → ℕ → Option ℕ) (me fd f : ℕ)
    → me < nproc
    → fd < nofile
    → o me fd ≡ some f
    → 1 ≤ total o f
unfolding total
total-member o me fd f lt lt' eq =
    let outer = sum-member nproc me (λ p. uses nofile (o p) f) lt in
    let inner = sum-member nofile fd (λ d. one_if (o me d) f) lt' in
    let one : one_if (o me fd) f ≡ 1 = ground (arith, eq) in omega (arith, outer, inner, one)
