-- ===== src/Prelude.antt =====
-- The names that the other modules share: the libraries', passed on, and those of the children.
mod Tests
mod Lists
mod Equality
mod Maps
mod Sets
mod Buckets
mod Sort
mod Found
unfoldable pub use Sort.{place, sort}
pub use Sort.{
  All-sort, All-of_sort, IsSortedBy, length-sort, sort-eq-nil, sort-perm, sort-IsSortedBy,
}
pub use Found.{All-asked, All-perm}
pub use Tests.*
pub use Lists.*
pub use Equality.{EqDec, ◌==◌, nat_eq, string_eq, beq_refl, eq_of_beq, ne_of_beq, eq_cases}
unfoldable pub use Maps.{lookup, insert, erase, has}
pub use Maps.{Map, values}
pub use Maps.{
  IsUnique, has-lookup, insert-IsUnique, erase-IsUnique, All-lookup, All-of_lookup, lookup-insert,
  lookup-erase, lookup-insert_self, lookup-erase_self,
}
unfoldable pub use Sets.{contains, add, remove, add_all, to_set}
pub use Sets.{
  NoDup, contains-add, contains-remove, contains-to_set, NoDup-add, NoDup-remove, NoDup-to_set,
  contains-append, add-ne-nil, contains-keep, NoDup-keep,
}
unfoldable pub use Buckets.{add_to, drop_from, drop_all}
pub use Buckets.{
  bucket, HasNoEmpty, bucket-add_to, bucket-drop_from, add_to-HasNoEmpty, drop_from-HasNoEmpty,
  drop_all-HasNoEmpty, contains-add_to, contains-drop_from, contains-drop_all,
}
pub use Prim.Native.Nat.{ℕ, zero, suc, ◌+◌, ◌-◌, ◌*◌, ◌/◌, ◌%◌, ◌≤◌, ◌<◌, min, max}
pub use Prim.Native.String.{String}
pub use mathlib.Core.Path.{◌≡◌, refl, sym, ap, ◌∙◌, subst}
pub use mathlib.Core.Logic.{◌≢◌, ◌↔◌, ◌⊎◌, inl, inr}
pub use mathlib.Core.Bool.{Bool, true, false, not, ◌&&◌, ◌||◌}
pub use mathlib.Core.Option.{Option, none, some}
pub use mathlib.Core.List.{List, [], ◌∷◌, ◌++◌, map}
pub use native.Mathlib.Omega.{arith}
