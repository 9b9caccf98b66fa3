-- ===== src/Console/Window.antt =====
-- The bytes in the ring buffer of kernel/console.c.
use lainos_fail.Base.{
  ℕ, zero, suc, ◌+◌, ◌-◌, ◌%◌, ◌≤◌, ◌<◌, ◌≡◌, ◌≢◌, refl, ap, ap₂, ◌∙◌, List, [], ◌∷◌, ◌++◌, arith,
  update, length,
}
use lainos_fail.Console.{input_buf}

-- The `k` bytes from the index `i` on, which need not be wrapped.
abbrev pub window : (ℕ → ℕ) → (i k : ℕ) → List ℕ
window buf i zero = []
window buf i (suc k) = buf (i % input_buf) ∷ window buf (i + 1) k

pub length-window : (buf : ℕ → ℕ) (i k : ℕ) → length (window buf i k) ≡ k
length-window buf i zero = refl
length-window buf i (suc k) = ap suc (length-window buf (i + 1) k)

-- The index counts up to the buffer's size only.
pub window-wrap :
    (buf : ℕ → ℕ) (i j k : ℕ) → i % input_buf ≡ j % input_buf → window buf i k ≡ window buf j k
window-wrap buf i j zero e = refl
window-wrap buf i j (suc k) e = ap₂ ◌∷◌ (ap buf e) (window-wrap buf (i + 1) (j + 1) k (omega arith))

pub window-append :
    (buf : ℕ → ℕ) (i a b : ℕ) → window buf i (a + b) ≡ window buf i a ++ window buf (i + a) b
window-append buf i zero b =
    let e : i ≡ i + 0 = omega arith in
    let z : 0 + b ≡ b = omega arith in rw z (ap (λ j. window buf j b) e)
window-append buf i (suc a) b =
    let e : i + 1 + a ≡ i + suc a = omega arith in
    let z : suc a + b ≡ suc (a + b) = omega arith in
    rw z (
      ap (λ xs. buf (i % input_buf) ∷ xs)
        (window-append buf (i + 1) a b ∙ ap (λ j. window buf (i + 1) a ++ window buf j b) e))

-- A byte stored outside the window leaves it.
pub window-update :
    (buf : ℕ → ℕ) (i k j c : ℕ)
    → k ≤ j
    → j < input_buf
    → window (update buf ((i + j) % input_buf) c) i k ≡ window buf i k
window-update buf i zero j c le lt = refl
window-update buf i (suc k) j c le lt =
    let ne : i % input_buf ≢ (i + j) % input_buf = omega (arith, le, lt) in
    let e : i + j ≡ i + 1 + (j - 1) = omega (arith, le) in
    ap₂ ◌∷◌ (ground (arith, ne)) (
      ap (λ x. window (update buf (x % input_buf) c) (i + 1) k) e
      ∙ window-update buf (i + 1) k (j - 1) c (omega (arith, le)) (omega (arith, lt)))
