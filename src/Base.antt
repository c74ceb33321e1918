-- ===== src/Base.antt =====
-- The names that the other modules share: the libraries' names, passed on, and the helpers below.
mod Tests
mod Equality
mod Lists
mod Texts
mod Containing
mod Dicts
mod Distinct
mod Numerals
mod Sorting
mod Joining
pub mod Integers
pub use Tests.*
unfoldable pub use Equality.*
pub use Lists.*
unfoldable pub use Texts.*
pub use Containing.*
unfoldable pub use Numerals.*
pub use Dicts.*
pub use Distinct.*
pub use Sorting.*
pub use Joining.*
pub use Prim.Native.Nat.{ℕ, zero, suc, ◌+◌, ◌-◌, ◌*◌, ◌/◌, ◌%◌, ◌^◌, ◌≤◌, ◌<◌}
pub use Prim.Native.String.{String}
pub use mathlib.Core.Path.{◌≡◌, refl, sym, ap, ap₂, ◌∙◌, subst}
pub use mathlib.Core.Logic.{◌≢◌, ◌↔◌, ◌⊎◌, inl, inr}
pub use mathlib.Core.Bool.{Bool, true, false, not, ◌&&◌, ◌||◌}
pub use mathlib.Core.Option.{Option, none, some}
pub use mathlib.Core.List.{List, [], ◌∷◌, ◌++◌, map, reverse, append_assoc, append-nil}
pub use native.Mathlib.Omega.{arith}
