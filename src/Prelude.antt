-- ===== src/Prelude.antt =====
-- The names that the other modules share: the libraries', passed on, and those of the children.
mod Tests
mod Int
mod Lists
mod Keys
mod Maps
mod Decimal
mod Text
mod Floats
mod JsonValue
mod Strings
pub use Tests.*
unfoldable pub use Int.*
pub use Lists.*
unfoldable pub use Keys.*
unfoldable pub use Maps.*
unfoldable pub use Decimal.*
unfoldable pub use Text.*
pub use Decimal.Trimmed.*
pub use Decimal.Canonical.*
pub use Floats.*
pub use JsonValue.*
unfoldable pub use Strings.*
pub use Prim.Native.Nat.{ℕ, zero, suc, ◌+◌, ◌-◌, ◌*◌, ◌/◌, ◌%◌, ◌^◌, ◌≤◌, ◌<◌}
pub use Prim.Native.String.{String, ◌++◌ as ◌<>◌}
pub use mathlib.Core.Path.{◌≡◌, refl, sym, ap, ◌∙◌, subst}
pub use mathlib.Core.Logic.{◌≢◌, ◌↔◌, ◌⊎◌, inl, inr}
pub use mathlib.Core.Bool.{Bool, true, false, not, ◌&&◌, ◌||◌}
pub use mathlib.Core.Option.{Option, none, some}
pub use mathlib.Core.List.{List, [], ◌∷◌, ◌++◌, map}
pub use native.Mathlib.Omega.{arith}
