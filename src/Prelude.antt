-- ===== src/Prelude.antt =====
-- The names that the other modules share: the libraries', passed on, and those of the children
-- (Boolean tests, lists over the native numbers, dictionaries and sets keyed by strings).
mod Tests
mod Lists
mod Dict
mod Order
mod Tables
pub use Tests.*
pub use Lists.*
unfoldable pub use Dict.{lookup, insert, contains}
pub use Dict.{str_eq, lookup-nil, lookup-insert, lookup-insert_self, lookup-insert_ne}
unfoldable pub use Order.{lt_wf}
unfoldable pub use Tables.{traverse, has_repeats, delete_where, insert_all}
pub use Tables.{
  ◌>>=◌, Distinct, keys, unless_deleted, or_else, lookup-delete_where, insert-Distinct,
  delete_where-Distinct, insert_all-Distinct, lookup-insert_all, is_some-contains,
}
pub use Prim.Native.Nat.{ℕ, zero, suc, ◌+◌, ◌-◌, ◌*◌, ◌/◌, ◌%◌, ◌^◌, ◌≤◌, ◌<◌, min, max}
pub use Prim.Native.String.{String}
pub use mathlib.Core.Path.{◌≡◌, refl, sym, ap, subst, ◌∙◌}
pub use mathlib.Core.Logic.{◌≢◌, ◌↔◌, ◌⊎◌, inl, inr}
pub use mathlib.Core.Bool.{Bool, true, false, not, ◌&&◌, ◌||◌}
pub use mathlib.Core.Option.{Option, none, some}
pub use mathlib.Core.List.{List, [], ◌∷◌, ◌++◌, map}
pub use native.Mathlib.Omega.{arith}
pub use text.Mathlib.TextEquality.{eq_iff}
pub use text.Mathlib.TextPositions.{eq_refl}
