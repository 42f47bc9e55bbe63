-- ===== src/Common.antt =====
-- What the models share: the libraries' names, passed on, tests on numbers and lists as arrays.
mod Tests
mod Lists
mod Reads
mod Int
mod Bits
mod Digits
mod Members
pub use Tests.*
pub use Lists.*
pub use Reads.*
pub use Int.*
pub use Bits.*
pub use Digits.*
pub use Members.*
pub use Prim.Native.Nat.{ℕ, zero, suc, ◌+◌, ◌-◌, ◌*◌, ◌/◌, ◌%◌, ◌^◌, ◌≤◌, ◌<◌, min, max}
pub use mathlib.Core.Path.{◌≡◌, refl, sym, ap, ◌∙◌, subst}
pub use mathlib.Core.Logic.{◌≢◌, ◌↔◌, ◌⊎◌, inl, inr}
pub use mathlib.Core.Bool.{Bool, true, false, not, ◌&&◌, ◌||◌}
pub use mathlib.Core.Option.{Option, none, some}
pub use mathlib.Core.List.{List, [], ◌∷◌, ◌++◌, map}
pub use native.Mathlib.Omega.{arith}
