-- ===== src/Prelude/Buckets.antt =====
-- A `Map<K, Set<A>>`: the idiom of adding to a set that may be missing, and of deleting a set with
-- its last element.
use mathlib.Core.Path.{◌≡◌}
use mathlib.Core.Logic.{◌≢◌, inl, inr}
use mathlib.Core.Bool.{not, ◌&&◌, ◌||◌}
use mathlib.Core.List.{List, [], ◌∷◌}
use mathlib.Core.Option.{none, some}
use native.Mathlib.Omega.{arith}
use open_chat_be.Prelude.Tests.{if◌then◌else◌, or_else, Option-cases}
use open_chat_be.Prelude.Equality.{EqDec, ◌==◌}
use open_chat_be.Prelude.Maps.{Map, lookup, insert, erase, lookup-insert, lookup-erase}
use open_chat_be.Prelude.Sets.{contains, add, remove, contains-add, contains-remove, add-ne-nil}

module _ {ℓ} {K A : Type ℓ} ⦃e : EqDec K⦄ ⦃d : EqDec A⦄ where
  -- `map.get(k) ?? new Set()`
  abbrev pub bucket : K → Map K (List A) → List A
  bucket k m = or_else (lookup k m) []

  -- the set with one more element, put into the map
  unfoldable pub add_to : K → A → Map K (List A) → Map K (List A)
  add_to k a m = insert k (add (bucket k m) a) m

  -- the set without an element; a set that becomes empty leaves the map
  unfoldable pub drop_from : K → A → Map K (List A) → Map K (List A)
  drop_from k a m = elim (lookup k m) [
    | none ↦ m
    | some xs ↦ elim (remove xs a) [ [] ↦ erase k m | x ∷ rest ↦ insert k (x ∷ rest) m ]
  ]

  -- one element taken out of many sets
  unfoldable pub drop_all : A → List K → Map K (List A) → Map K (List A)
  drop_all a [] m = m
  drop_all a (k ∷ ks) m = drop_all a ks (drop_from k a m)

  -- No set in the map is empty.
  abbrev pub HasNoEmpty : Map K (List A) → Type ℓ
  HasNoEmpty m = (k : K) → lookup k m ≢ some []

  pub bucket-add_to :
      (k : K) (a : A) (m : Map K (List A)) (j : K)
      → bucket j (add_to k a m) ≡ (if k == j then add (bucket k m) a else bucket j m)
  unfolding add_to
  bucket-add_to k a m j = ground (arith, lookup-insert k j (add (bucket k m) a) m)

  pub add_to-HasNoEmpty :
      (k : K) (a : A) (m : Map K (List A)) → HasNoEmpty m → HasNoEmpty (add_to k a m)
  unfolding add_to
  add_to-HasNoEmpty k a m h j =
      ground (arith, h j, add-ne-nil (bucket k m) a, lookup-insert k j (add (bucket k m) a) m)

  pub bucket-drop_from :
      (k : K) (a : A) (m : Map K (List A)) (j : K)
      → bucket j (drop_from k a m) ≡ (if k == j then remove (bucket j m) a else bucket j m)
  unfolding drop_from remove
  bucket-drop_from k a m j = elim (Option-cases (lookup k m)) [
    | inl n ↦ ground (arith, n, e.beq_iff k j)
    | inr (xs, n) ↦
        ground (arith, n, e.beq_iff k j, lookup-erase k j m, lookup-insert k j (remove xs a) m)
  ]

  pub drop_from-HasNoEmpty :
      (k : K) (a : A) (m : Map K (List A)) → HasNoEmpty m → HasNoEmpty (drop_from k a m)
  unfolding drop_from
  drop_from-HasNoEmpty k a m h j = elim (Option-cases (lookup k m)) [
    | inl n ↦ ground (arith, n, h j)
    | inr (xs, n) ↦
        ground (arith, n, h j, e.beq_iff k j, lookup-erase k j m, lookup-insert k j (remove xs a) m)
  ]

  pub contains-add_to :
      (k : K) (a : A) (m : Map K (List A)) (j : K) (b : A)
      → contains (bucket j (add_to k a m)) b ≡ ((k == j && a == b) || contains (bucket j m) b)
  contains-add_to k a m j b =
      ground (arith, bucket-add_to k a m j, contains-add (bucket k m) a b, e.beq_iff k j)

  pub contains-drop_from :
      (k : K) (a : A) (m : Map K (List A)) (j : K) (b : A)
      → contains (bucket j (drop_from k a m)) b
        ≡ (not (k == j && a == b) && contains (bucket j m) b)
  contains-drop_from k a m j b =
      ground (arith, bucket-drop_from k a m j, contains-remove (bucket j m) a b)

  pub contains-drop_all :
      (a : A) (ks : List K) (m : Map K (List A)) (j : K) (b : A)
      → contains (bucket j (drop_all a ks m)) b
        ≡ (not (contains ks j && a == b) && contains (bucket j m) b)
  unfolding drop_all contains
  contains-drop_all a [] m j b = ground arith
  contains-drop_all a (k ∷ ks) m j b =
      ground (arith, contains-drop_all a ks (drop_from k a m) j b, contains-drop_from k a m j b)

  pub drop_all-HasNoEmpty :
      (a : A) (ks : List K) (m : Map K (List A)) → HasNoEmpty m → HasNoEmpty (drop_all a ks m)
  unfolding drop_all
  drop_all-HasNoEmpty a [] m h = h
  drop_all-HasNoEmpty a (k ∷ ks) m h =
      drop_all-HasNoEmpty a ks (drop_from k a m) (drop_from-HasNoEmpty k a m h)
