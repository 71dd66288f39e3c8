-- ===== src/Prelude.antt =====
-- The names that every other module shares: those of the libraries, passed on, and those of the
-- children: Boolean tests, equality by instances, lists over native numbers, results with errors.
mod Tests
mod Lists
mod Errors
mod Texts
mod Dicts
mod Distinct
mod Sorting
pub use Tests.*
pub use Lists.*
pub use Errors.*
pub use Texts.*
pub use Dicts.*
pub use Distinct.*
pub use Sorting.*
unfoldable pub use Distinct.{distinct, all_distinct}
unfoldable pub use Dicts.{lookup, insert}
unfoldable pub use Tests.{string_eq, list_eq, option_eq}
pub use Prim.Native.Nat.{ℕ, zero, suc, ◌+◌, ◌-◌, ◌*◌, ◌/◌, ◌%◌, ◌^◌, ◌≤◌, ◌<◌}
pub use Prim.Native.String.{String}
pub use mathlib.Core.Path.{◌≡◌, refl, sym, ap, subst, ◌∙◌}
pub use mathlib.Core.Logic.{◌≢◌, ◌↔◌, ◌⊎◌, inl, inr, ite}
pub use mathlib.Core.Bool.{Bool, true, false, not, ◌&&◌, ◌||◌}
pub use mathlib.Core.Option.{Option, none, some}
pub use mathlib.Core.List.{List, [], ◌∷◌, ◌++◌, map}
pub use native.Mathlib.Omega.{arith}
unfoldable pub use native.Mathlib.Decide.{ℕ_discrete}
