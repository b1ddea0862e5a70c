-- ===== src/Prelude/Maps.antt =====
-- A JavaScript `Map` as an association list in insertion order.
use mathlib.Core.Path.{◌≡◌, refl, subst, ap₂}
use mathlib.Core.Logic.{inl, inr}
use mathlib.Core.Bool.{Bool, false, ◌||◌}
use mathlib.Core.List.{List, [], ◌∷◌, map}
use mathlib.Core.Option.{Option, none, some}
use native.Mathlib.Omega.{arith}
use open_chat_be.Prelude.Tests.{if◌then◌else◌, is_some, Bool-cases}
use open_chat_be.Prelude.Lists.{All, All-imp}
use open_chat_be.Prelude.Equality.{EqDec, ◌==◌, beq_refl}

abbrev pub Map {ℓ κ} : Type ℓ → Type κ → Type (ℓ ⊔ κ)
Map K V = List (K × V)

module _ {ℓ κ} {K : Type ℓ} {V : Type κ} ⦃e : EqDec K⦄ where
  -- `map.has(k)`
  unfoldable pub has : K → Map K V → Bool
  has key ((known, v) ∷ rest) = known == key || has key rest
  has key [] = false

  -- `map.delete(k)`
  unfoldable pub erase : K → Map K V → Map K V
  erase key ((known, v) ∷ rest) =
      if known == key then erase key rest else (known, v) ∷ erase key rest
  erase key [] = []

  -- `map.get(k)`
  unfoldable pub lookup : K → Map K V → Option V
  lookup key ((known, v) ∷ rest) = if known == key then some v else lookup key rest
  lookup key [] = none

  pub lookup-erase :
      (key other : K) (entries : Map K V)
      → lookup other (erase key entries) ≡ (if key == other then none else lookup other entries)
  unfolding erase lookup
  lookup-erase key other ((known, v) ∷ rest) = ground (
    arith,
    lookup-erase key other rest,
    e.beq_iff known key,
    e.beq_iff known other,
    e.beq_iff key other,
  )
  lookup-erase key other [] = ground arith

  -- `map.set(k, v)`: a known key keeps its place, a new one goes to the end
  unfoldable pub insert : K → V → Map K V → Map K V
  insert key new ((known, v) ∷ rest) =
      if known == key then (known, new) ∷ rest else (known, v) ∷ insert key new rest
  insert key new [] = (key, new) ∷ []

  pub lookup-insert :
      (key other : K) (new : V) (entries : Map K V)
      → lookup other (insert key new entries)
        ≡ (if key == other then some new else lookup other entries)
  unfolding insert lookup
  lookup-insert key other new ((known, v) ∷ rest) = ground (
    arith,
    lookup-insert key other new rest,
    e.beq_iff known key,
    e.beq_iff known other,
    e.beq_iff key other,
  )
  lookup-insert key other new [] = refl

  pub lookup-insert_self : (k : K) (v : V) (m : Map K V) → lookup k (insert k v m) ≡ some v
  lookup-insert_self k v m = rw (lookup-insert k k v m, beq_refl k)

  pub lookup-erase_self : (k : K) (m : Map K V) → lookup k (erase k m) ≡ none
  lookup-erase_self k m = rw (lookup-erase k k m, beq_refl k)

-- Each key stands in the list once.
module _ {ℓ κ} {K : Type ℓ} {V : Type κ} ⦃e : EqDec K⦄ where
  abbrev pub IsUnique : Map K V → Type 0
  IsUnique [] = Unit
  IsUnique ((k, v) ∷ m) = (has k m ≡ false) × IsUnique m

  pub has-lookup : (k : K) (m : Map K V) → has k m ≡ is_some (lookup k m)
  unfolding has lookup
  has-lookup k [] = refl
  has-lookup k ((j, v) ∷ m) = ground (arith, has-lookup k m)

  pub insert-IsUnique : (k : K) (v : V) (m : Map K V) → IsUnique m → IsUnique (insert k v m)
  unfolding insert has
  insert-IsUnique k v [] u = ground arith
  insert-IsUnique k v ((j, w) ∷ m) u = ground (
    arith,
    insert-IsUnique k v m u.1,
    has-lookup j (insert k v m),
    has-lookup j m,
    lookup-insert k j v m,
    e.beq_iff k j,
    e.beq_iff j k,
  )

  pub erase-IsUnique : (k : K) (m : Map K V) → IsUnique m → IsUnique (erase k m)
  unfolding erase has
  erase-IsUnique k [] u = tt
  erase-IsUnique k ((j, w) ∷ m) u =
      ground (
        arith,
        erase-IsUnique k m u.1,
        has-lookup j (erase k m),
        has-lookup j m,
        lookup-erase k j m,
      )

  -- What stands in the list is what the map answers.
  pub All-lookup : (m : Map K V) → IsUnique m → All (λ p. lookup p.0 m ≡ some p.1) m
  unfolding lookup
  All-lookup [] u = tt
  All-lookup ((k, v) ∷ m) u = (
    rw (beq_refl k),
    All-imp (λ p. lookup p.0 m ≡ some p.1) (λ p. lookup p.0 ((k, v) ∷ m) ≡ some p.1) m
        (λ p h. ground (arith, h, u.0, has-lookup k m, e.beq_iff k p.0)) (All-lookup m u.1),
  )

  pub All-of_lookup {μ} :
      (P : K × V → Type μ) (m : Map K V) (k : K) (v : V) → All P m → lookup k m ≡ some v → P (k, v)
  unfolding lookup
  All-of_lookup P [] k v h f = cc
  All-of_lookup P ((j, w) ∷ m) k v h f = elim (Bool-cases (j == k)) [
    | inl same ↦
        subst (λ q. P q)
          (ap₂ (λ (a : K) (b : V). (a, b)) ((e.beq_iff j k).0 same) (ground (arith, same))) h.0
    | inr other ↦ All-of_lookup P m k v h.1 (ground (arith, other))
  ]

-- `[...map.values()]`
abbrev pub values {ℓ κ} : {K : Type ℓ} {V : Type κ} → Map K V → List V
values = map (λ e. e.1)
