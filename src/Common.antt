-- ===== src/Common.antt =====
-- The names that the other modules share: those of the libraries, passed on, and those of the
-- children (tests on numbers, equality as an interface, lists, dictionaries, sets, sorting and texts).
mod Tests
mod Equality
mod Lists
mod Dicts
mod Sets
mod Sorting
mod Text
mod TextLaws
mod Hex
mod Ints
pub use Tests.*
unfoldable pub use Equality.*
pub use Lists.*
unfoldable pub use Dicts.*
unfoldable pub use Sets.*
unfoldable pub use Sorting.*
unfoldable pub use Text.*
pub use TextLaws.*
unfoldable pub use Hex.*
unfoldable pub use Ints.*
pub use Prim.Native.Nat.{ℕ, zero, suc, ◌+◌, ◌-◌, ◌*◌, ◌/◌, ◌%◌, ◌≤◌, ◌<◌, min, max}
pub use Prim.Native.String.{String}
pub use mathlib.Core.Path.{◌≡◌, refl, sym, ap, ◌∙◌, subst, subst₂}
pub use mathlib.Core.Logic.{◌≢◌, ◌↔◌, ◌⊎◌, inl, inr}
pub use mathlib.Core.Bool.{Bool, true, false, not, ◌&&◌, ◌||◌}
pub use mathlib.Core.Option.{Option, none, some}
pub use mathlib.Core.List.{List, [], ◌∷◌, ◌++◌, map, reverse, append-nil, append_assoc}
pub use native.Mathlib.Omega.{arith}
unfoldable pub use native.Mathlib.Decide.{ℕ_discrete}
