-- ===== src/Prelude/Sort.antt =====
-- `Array.prototype.sort` with a comparison: stable, so it is insertion sort, and sorted for a
-- comparison that is total and transitive.
use mathlib.Core.Path.{◌≡◌, refl}
use mathlib.Core.Logic.{inl, inr, ◌≢◌}
use mathlib.Core.Bool.{Bool, true, false}
use mathlib.Core.List.{List, [], ◌∷◌, Perm}
use mathlib.Core.List.Perm
use native.Mathlib.Omega.{arith}
use open_chat_be.Prelude.Tests.{if◌then◌else◌, Bool-cases}
use open_chat_be.Prelude.Lists.{All, length}
use Prim.Native.Nat.{suc}

module _ {ℓ} {A : Type ℓ} where
  -- `before x y` says that `x` may stand in front of `y`.
  unfoldable pub place : (A → A → Bool) → A → List A → List A
  place before x [] = x ∷ []
  place before x (y ∷ ys) = if before x y then x ∷ y ∷ ys else y ∷ place before x ys

  unfoldable pub sort : (A → A → Bool) → List A → List A
  unfolding place
  sort before [] = []
  sort before (x ∷ xs) = place before x (sort before xs)

  abbrev pub IsSortedBy : (A → A → Bool) → List A → Type ℓ
  IsSortedBy before [] = Unit
  IsSortedBy before (x ∷ xs) = All (λ y. before x y ≡ true) xs × IsSortedBy before xs

  place-perm : (before : A → A → Bool) (x : A) (xs : List A) → Perm (x ∷ xs) (place before x xs)
  unfolding place
  place-perm before x [] = Perm.refl (x ∷ [])
  place-perm before x (y ∷ ys) = elim (Bool-cases (before x y)) [
    | inl h ↦ rw h (Perm.refl (x ∷ y ∷ ys))
    | inr h ↦ rw h (Perm.trans (Perm.swap y x ys) (Perm.cons y (place-perm before x ys)))
  ]

  length-place :
      (before : A → A → Bool) (x : A) (xs : List A) → length (place before x xs) ≡ suc (length xs)
  unfolding place
  length-place before x [] = refl
  length-place before x (y ∷ ys) = ground (arith, length-place before x ys)

  pub length-sort : (before : A → A → Bool) (xs : List A) → length (sort before xs) ≡ length xs
  unfolding sort
  length-sort before [] = refl
  length-sort before (x ∷ xs) =
      omega (arith, length-sort before xs, length-place before x (sort before xs))

  pub sort-perm : (before : A → A → Bool) (xs : List A) → Perm xs (sort before xs)
  unfolding sort
  sort-perm before [] = Perm.refl []
  sort-perm before (x ∷ xs) =
      Perm.trans (Perm.cons x (sort-perm before xs)) (place-perm before x (sort before xs))

module _ {ℓ κ} {A : Type ℓ} (P : A → Type κ) (before : A → A → Bool) where
  All-place_any : (x : A) (xs : List A) → P x → All P xs → All P (place before x xs)
  unfolding place
  All-place_any x [] p h = (p, tt)
  All-place_any x (y ∷ ys) p h = elim (Bool-cases (before x y)) [
    | inl b ↦ rw b (p, h)
    | inr b ↦ rw b (h.0, All-place_any x ys p h.1)
  ]

  All-of_place : (x : A) (xs : List A) → All P (place before x xs) → P x × All P xs
  unfolding place
  All-of_place x [] = λ h. h
  All-of_place x (y ∷ ys) = elim (Bool-cases (before x y)) [
    | inl b ↦ rw b (λ h. h)
    | inr b ↦ rw b (λ h. let (p, q) = All-of_place x ys h.1 in (p, (h.0, q)))
  ]

  pub All-sort : (xs : List A) → All P xs → All P (sort before xs)
  unfolding sort
  All-sort [] h = tt
  All-sort (x ∷ xs) h = All-place_any x (sort before xs) h.0 (All-sort xs h.1)

  pub All-of_sort : (xs : List A) → All P (sort before xs) → All P xs
  unfolding sort
  All-of_sort [] h = tt
  All-of_sort (x ∷ xs) h = let (p, q) = All-of_place x (sort before xs) h in (p, All-of_sort xs q)

module _ {ℓ} {A : Type ℓ} (before : A → A → Bool)
    (total : (x y : A) → before x y ≡ false → before y x ≡ true)
    (trans : (x y z : A) → before x y ≡ true → before y z ≡ true → before x z ≡ true) where
  All-trans :
      (x y : A) (zs : List A)
      → before x y ≡ true
      → All (λ z. before y z ≡ true) zs
      → All (λ z. before x z ≡ true) zs
  All-trans x y [] h k = tt
  All-trans x y (z ∷ zs) h k = (trans x y z h k.0, All-trans x y zs h k.1)

  All-place :
      (x y : A) (ys : List A)
      → before y x ≡ true
      → All (λ z. before y z ≡ true) ys
      → All (λ z. before y z ≡ true) (place before x ys)
  unfolding place
  All-place x y [] h k = (h, tt)
  All-place x y (z ∷ zs) h k = ground (arith, All-place x y zs h k.1)

  place-IsSortedBy :
      (x : A) (xs : List A) → IsSortedBy before xs → IsSortedBy before (place before x xs)
  unfolding place
  place-IsSortedBy x [] s = (tt, tt)
  place-IsSortedBy x (y ∷ ys) s = elim (Bool-cases (before x y)) [
    | inl h ↦ rw h ((h, All-trans x y ys h s.0), s)
    | inr h ↦ rw h (All-place x y ys (total x y h) s.0, place-IsSortedBy x ys s.1)
  ]

  pub sort-IsSortedBy : (xs : List A) → IsSortedBy before (sort before xs)
  unfolding sort
  sort-IsSortedBy [] = tt
  sort-IsSortedBy (x ∷ xs) = place-IsSortedBy x (sort before xs) (sort-IsSortedBy xs)

place-ne-nil {ℓ} :
    {A : Type ℓ} (before : A → A → Bool) (x : A) (xs : List A) → place before x xs ≢ []
unfolding place
place-ne-nil before x [] = cc
place-ne-nil before x (y ∷ ys) = ground arith

pub sort-eq-nil {ℓ} :
    {A : Type ℓ} (before : A → A → Bool) (xs : List A) → sort before xs ≡ [] → xs ≡ []
unfolding sort
sort-eq-nil before [] h = refl
sort-eq-nil before (x ∷ xs) h = absurd (place-ne-nil before x (sort before xs) h)
