-- ===== src/Common.antt =====
-- Shared names: the libraries', passed on, and the helpers of the children.
-- `Tests` has Boolean tests, `Arrays` C arrays as lists, `Words` fixed-width integers,
-- `Digits` single binary digits, `Bits` the masks that the code writes with `&`.
mod Tests
mod Arrays
mod Words
mod Digits
mod Bits
pub use Tests.*
pub use Arrays.*
pub use Words.*
pub use Digits.*
pub use Bits.*
pub use Prim.Native.Nat.{ℕ, zero, suc, ◌+◌, ◌-◌, ◌*◌, ◌/◌, ◌%◌, ◌^◌, ◌≤◌, ◌<◌, min, max}
pub use Prim.Native.Nat.{bit_and, bit_or, bit_xor}
pub use mathlib.Core.Path.{◌≡◌, refl, sym, ap, ap₂, ◌∙◌, subst}
pub use mathlib.Core.Logic.{◌≢◌, ◌↔◌, ◌⊎◌, inl, inr}
pub use mathlib.Core.Bool.{Bool, true, false, not, ◌&&◌, ◌||◌}
pub use mathlib.Core.Option.{Option, none, some}
pub use mathlib.Core.List.{List, [], ◌∷◌, ◌++◌}
pub use native.Mathlib.Omega.{arith}
