-- ===== src/Base.antt =====
-- What the other modules share: names of the libraries, passed on, and those of the children.
mod Tests
mod Lists
mod Words
mod Text
mod Options
pub mod Bits
pub mod Numerals
pub mod Bytes
pub mod Ram
pub use Tests.*
pub use Lists.*
pub use Words.*
unfoldable pub use Text.*
pub use Options.*
pub use Prim.Native.Nat.{ℕ, zero, suc, ◌+◌, ◌-◌, ◌*◌, ◌/◌, ◌%◌, ◌^◌, ◌≤◌, ◌<◌, min}
pub use mathlib.Core.Path.{◌≡◌, refl, sym, ap, ◌∙◌, fun_ext}
pub use mathlib.Core.Logic.{◌≢◌, ◌⊎◌, inl, inr}
pub use mathlib.Core.Bool.{Bool, true, false, ◌&&◌, ◌||◌, not}
pub use mathlib.Core.Option.{Option, none, some}
pub use mathlib.Core.List.{List, [], ◌∷◌, ◌++◌}
pub use native.Mathlib.Omega.{arith}
