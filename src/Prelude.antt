-- ===== src/Prelude.antt =====
-- Names that the whole development shares: the libraries' names passed on, tests on machine
-- numbers, lists measured by them, and the outcome of C code.
mod Tests
mod Lists
mod Texts
mod Ints
mod Strtol
mod Outcomes
pub use Tests.*
pub use Lists.*
unfoldable pub use Ints.*
unfoldable pub use Strtol.*
unfoldable pub use Texts.*
pub use Outcomes.*
pub use Prim.Native.Nat.{ℕ, zero, suc, ◌+◌, ◌-◌, ◌*◌, ◌/◌, ◌%◌, ◌^◌, ◌≤◌, ◌<◌}
pub use mathlib.Core.Path.{◌≡◌, refl, sym, ap, ◌∙◌, subst}
pub use mathlib.Core.Logic.{◌≢◌, ◌⊎◌, inl, inr}
pub use mathlib.Core.Bool.{Bool, true, false, not, ◌&&◌, ◌||◌}
pub use mathlib.Core.Option.{Option, none, some}
pub use mathlib.Core.List.{List, [], ◌∷◌, ◌++◌, map, Perm}
pub use native.Mathlib.Omega.{arith}
