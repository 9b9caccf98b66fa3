-- ===== src/Base/Tables.antt =====
-- Facts about small numbers by evaluation.
use Prim.Native.Nat.{ℕ, zero, suc, ◌<◌}
use mathlib.Core.Path.{◌≡◌}
use mathlib.Core.Bool.{Bool, true, ◌&&◌}
use native.Mathlib.Omega.{arith}

-- A Boolean test at every number below a bound, by evaluation.
unfoldable pub passes : ℕ → (ℕ → Bool) → Bool
passes zero test = true
passes (suc n) test = test n && passes n test

pub passes_at : (n : ℕ) (test : ℕ → Bool) (x : ℕ) → passes n test ≡ true → x < n → test x ≡ true
unfolding passes
passes_at zero test x h lt = absurd (omega arith)
passes_at (suc n) test x h lt = ground (arith, passes_at n test x)
