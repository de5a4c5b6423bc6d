-- ===== src/Base.antt =====
-- The names that the other modules share: the libraries' names, passed on, Boolean tests, lists
-- over the native numbers, byte codings and the outcomes of Go calls. It models no code by itself.
mod Tests
mod Lists
pub mod Bytes
mod Calls
pub mod Assoc
pub mod Int
pub mod Text
pub mod Decimal
unfoldable pub use Tests.*
pub use Lists.*
pub use Calls.*
pub use Prim.Native.Nat.{ℕ, zero, suc, ◌+◌, ◌-◌, ◌*◌, ◌/◌, ◌%◌, ◌^◌, ◌≤◌, ◌<◌}
pub use mathlib.Core.Path.{◌≡◌, refl, sym, ap, ◌∙◌}
pub use mathlib.Core.Logic.{◌≢◌, ◌↔◌, ◌⊎◌, inl, inr}
pub use mathlib.Core.Bool.{Bool, true, false, not, ◌&&◌, ◌||◌}
pub use mathlib.Core.Option.{Option, none, some}
pub use mathlib.Core.List.{List, [], ◌∷◌, ◌++◌, map}
pub use native.Mathlib.Omega.{arith}
