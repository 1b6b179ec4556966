-- ===== src/Base.antt =====
-- The names that the other modules share: library names passed on, Boolean tests and lists over
-- the native numbers, results that may also be a panic, and little-endian words.
mod Tests
mod Lists
mod Outcome
mod Words
mod Hex
pub use Tests.*
pub use Lists.*
pub use Outcome.*
unfoldable pub use Words.*
unfoldable pub use Hex.*
pub use Prim.Native.Nat.{ℕ, zero, suc, ◌+◌, ◌-◌, ◌*◌, ◌/◌, ◌%◌, ◌^◌, ◌≤◌, ◌<◌}
pub use mathlib.Core.Path.{◌≡◌, refl, sym, ap, ◌∙◌}
pub use mathlib.Core.Logic.{◌≢◌, ◌↔◌, ◌⊎◌, inl, inr}
pub use mathlib.Core.Bool.{Bool, true, false, not, ◌&&◌, ◌||◌}
pub use mathlib.Core.Option.{Option, none, some}
pub use mathlib.Core.List.{List, [], ◌∷◌, ◌++◌, map, append_assoc}
pub use native.Mathlib.Omega.{arith}
