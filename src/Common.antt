-- ===== src/Common.antt =====
-- The names that the other modules share: those of the libraries, Boolean tests on the native
-- numbers, the conditional, and functions as arrays.
mod Tests
mod Store
mod Ring
mod Lists
mod Bits
mod Chains
pub use Tests.*
pub use Store.*
unfoldable pub use Ring.*
pub use Lists.*
pub use Chains.*
unfoldable pub use Bits.*
pub use Prim.Native.Nat.{ℕ, zero, suc, ◌+◌, ◌-◌, ◌*◌, ◌/◌, ◌%◌, ◌^◌, ◌≤◌, ◌<◌, bit_and, bit_or}
pub use mathlib.Core.Path.{◌≡◌, refl, sym, ap, subst, ◌∙◌, fun_ext}
pub use mathlib.Core.Logic.{◌≢◌, ◌↔◌, ◌⊎◌, inl, inr}
pub use mathlib.Core.Bool.{Bool, true, false, not, ◌&&◌, ◌||◌}
pub use mathlib.Core.Option.{Option, none, some}
pub use mathlib.Core.List.{List, [], ◌∷◌, ◌++◌, map}
pub use native.Mathlib.Omega.{arith}
