-- ===== src/Prelude.antt =====
-- Names that every module shares: those of the libraries, and the children's tests, lists, machine
-- words, signed integers and texts.
mod Tests
mod Lists
mod Words
mod Int
mod Text
mod Decimal
mod Padded
mod Search
mod Window
mod Family
mod Counts
pub use Tests.*
pub use Lists.*
pub use Words.*
unfoldable pub use Int.*
unfoldable pub use Text.*
pub use Decimal.*
pub use Padded.*
pub use Search.*
pub use Window.*
pub use Family.*
pub use Counts.*
pub use Prim.Native.Nat.{ℕ, zero, suc, ◌+◌, ◌-◌, ◌*◌, ◌/◌, ◌%◌, ◌^◌, ◌≤◌, ◌<◌, min}
pub use mathlib.Core.Path.{◌≡◌, refl, sym, ap, ◌∙◌}
pub use mathlib.Core.Logic.{◌≢◌, ◌↔◌, ◌⊎◌, inl, inr}
pub use mathlib.Core.Bool.{Bool, true, false, ◌&&◌, ◌||◌, not}
pub use mathlib.Core.Option.{Option, none, some}
pub use mathlib.Core.List.{List, [], ◌∷◌, ◌++◌, map, append_assoc, append-nil}
pub use native.Mathlib.Omega.{arith}
