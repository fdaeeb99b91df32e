-- ===== src/Base.antt =====
-- The names that the other modules share: the libraries', passed on, and those of Base/Tests.antt.
-- No code of the chain is modelled here: Base/Words.antt has Go's machine integers,
-- Base/Text.antt the string functions of Go's standard library, Base/Floats.antt its floats,
-- and Base/Store.antt the keyed collections in which the keeper keeps its records.
mod Tests
pub mod Words
pub mod Text
pub mod Store
pub mod Floats
pub use Tests.*
pub use Prim.Native.Nat.{ℕ, zero, suc, ◌+◌, ◌-◌, ◌*◌, ◌/◌, ◌%◌, ◌^◌, ◌≤◌, ◌<◌}
pub use Prim.Native.String.{String}
pub use mathlib.Core.Path.{◌≡◌, refl, sym, ap, ◌∙◌}
pub use mathlib.Core.Logic.{◌≢◌, ◌↔◌, ◌⊎◌, inl, inr}
pub use mathlib.Core.Bool.{Bool, true, false, not, ◌&&◌, ◌||◌}
pub use mathlib.Core.Option.{Option, none, some}
pub use mathlib.Core.List.{List, [], ◌∷◌, ◌++◌, map}
pub use native.Mathlib.Omega.{arith}
pub use text.Mathlib.Text.{◌==◌ as str_eq}
pub use text.Mathlib.TextEquality.{eq_iff}
pub use text.Mathlib.TextPositions.{eq_refl}
