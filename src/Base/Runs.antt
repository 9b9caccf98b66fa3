-- ===== src/Base/Runs.antt =====
-- What a kernel function does: it returns, it goes to sleep at a `sleep()` call, or it panics.

pub data Outcome {ℓ} (A : Type ℓ) : Type ℓ where
  done : A → Outcome A
  sleeps : Outcome A
  panics : Outcome A

infixl 5 ◌>>=◌
abbrev pub ◌>>=◌ {ℓ κ} : {A : Type ℓ} {B : Type κ} → Outcome A → (A → Outcome B) → Outcome B
done a >>= f = f a
sleeps >>= f = sleeps
panics >>= f = panics
