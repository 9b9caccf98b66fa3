-- ===== src/Base.antt =====
-- Names that the modules share: the libraries' names, passed on, tests, lists and arrays.
mod Tests
mod Lists
mod Arrays
mod Int
mod Words
mod Runs
mod Tables
pub use Words.*
pub use Int.*
pub use Tests.*
pub use Lists.*
pub use Runs.*
unfoldable pub use Tables.*
pub use Arrays.*
pub use Prim.Native.Nat.{ℕ, zero, suc, ◌+◌, ◌-◌, ◌*◌, ◌/◌, ◌%◌, ◌^◌, ◌≤◌, ◌<◌, min}
pub use mathlib.Core.Path.{◌≡◌, refl, sym, ap, ap₂, ◌∙◌, subst, fun_ext}
pub use mathlib.Core.Logic.{◌≢◌, ◌↔◌, ◌⊎◌, inl, inr}
pub use mathlib.Core.Bool.{Bool, true, false, not, ◌&&◌, ◌||◌}
pub use mathlib.Core.Option.{Option, none, some}
pub use mathlib.Core.List.{List, [], ◌∷◌, ◌++◌}
pub use native.Mathlib.Omega.{arith}
