-- ===== src/Prelude/Sets.antt =====
-- A JavaScript `Set` as a list in insertion order without repetition.
use mathlib.Core.Path.{◌≡◌, refl}
use mathlib.Core.Logic.{◌≢◌}
use mathlib.Core.Bool.{Bool, false, not, ◌&&◌, ◌||◌}
use mathlib.Core.List.{List, [], ◌∷◌, ◌++◌}
use native.Mathlib.Omega.{arith}
use mathlib.Core.Logic.{inl, inr}
use open_chat_be.Prelude.Tests.{if◌then◌else◌, Bool-cases}
use open_chat_be.Prelude.Lists.{keep}
use open_chat_be.Prelude.Equality.{EqDec, ◌==◌, beq_refl, eq_of_beq}

module _ {ℓ} {A : Type ℓ} ⦃e : EqDec A⦄ where
  -- `set.has(a)`, `array.includes(a)`
  unfoldable pub contains : List A → A → Bool
  contains [] a = false
  contains (x ∷ xs) a = x == a || contains xs a

  -- `set.add(a)`
  unfoldable pub add : List A → A → List A
  add xs a = if contains xs a then xs else xs ++ a ∷ []

  -- `set.delete(a)`
  unfoldable pub remove : List A → A → List A
  remove [] a = []
  remove (x ∷ xs) a = if x == a then remove xs a else x ∷ remove xs a

  unfoldable pub add_all : List A → List A → List A
  add_all s [] = s
  add_all s (x ∷ xs) = add_all (add s x) xs

  -- `[...new Set(xs)]`
  unfoldable pub to_set : List A → List A
  unfolding add_all
  to_set xs = add_all [] xs

  abbrev pub NoDup : List A → Type 0
  NoDup [] = Unit
  NoDup (x ∷ xs) = (contains xs x ≡ false) × NoDup xs

  pub contains-append :
      (xs ys : List A) (b : A) → contains (xs ++ ys) b ≡ (contains xs b || contains ys b)
  unfolding contains
  contains-append [] ys b = refl
  contains-append (x ∷ xs) ys b = ground (arith, contains-append xs ys b)

  pub contains-add : (xs : List A) (a b : A) → contains (add xs a) b ≡ (a == b || contains xs b)
  unfolding add contains
  contains-add xs a b = ground (arith, contains-append xs (a ∷ []) b, e.beq_iff a b)

  pub add-ne-nil : (xs : List A) (a : A) → add xs a ≢ []
  unfolding add contains
  add-ne-nil [] a = ground arith
  add-ne-nil (x ∷ xs) a = ground arith

  pub contains-remove :
      (xs : List A) (a b : A) → contains (remove xs a) b ≡ (not (a == b) && contains xs b)
  unfolding remove contains
  contains-remove [] a b = ground arith
  contains-remove (x ∷ xs) a b =
      ground (arith, contains-remove xs a b, e.beq_iff a b, e.beq_iff x a, e.beq_iff x b)

  contains-add_all :
      (s xs : List A) (b : A) → contains (add_all s xs) b ≡ (contains s b || contains xs b)
  unfolding add_all contains
  contains-add_all s [] b = ground arith
  contains-add_all s (x ∷ xs) b =
      ground (arith, contains-add_all (add s x) xs b, contains-add s x b)

  pub contains-to_set : (xs : List A) (b : A) → contains (to_set xs) b ≡ contains xs b
  unfolding to_set contains
  contains-to_set xs b = contains-add_all [] xs b

  NoDup-concat : (xs : List A) (a : A) → contains xs a ≡ false → NoDup xs → NoDup (xs ++ a ∷ [])
  unfolding contains
  NoDup-concat [] a h d = ground arith
  NoDup-concat (x ∷ xs) a h d =
      ground (arith, NoDup-concat xs a, contains-append xs (a ∷ []) x, e.beq_iff x a, e.beq_iff a x)

  pub NoDup-add : (xs : List A) (a : A) → NoDup xs → NoDup (add xs a)
  unfolding add
  NoDup-add xs a d = ground (arith, NoDup-concat xs a)

  pub NoDup-remove : (xs : List A) (a : A) → NoDup xs → NoDup (remove xs a)
  unfolding remove
  NoDup-remove [] a d = tt
  NoDup-remove (x ∷ xs) a d = ground (arith, NoDup-remove xs a d.1, contains-remove xs a x)

  NoDup-add_all : (s xs : List A) → NoDup s → NoDup (add_all s xs)
  unfolding add_all
  NoDup-add_all s [] d = d
  NoDup-add_all s (x ∷ xs) d = NoDup-add_all (add s x) xs (NoDup-add s x d)

  pub NoDup-to_set : (xs : List A) → NoDup (to_set xs)
  unfolding to_set
  NoDup-to_set xs = NoDup-add_all [] xs tt

  pub contains-keep :
      (p : A → Bool) (xs : List A) (b : A) → contains (keep p xs) b ≡ (p b && contains xs b)
  unfolding contains
  contains-keep p [] b = ground arith
  contains-keep p (x ∷ xs) b = elim (Bool-cases (x == b)) [
    | inl h ↦ rw (eq_of_beq x b h) (ground (arith, contains-keep p xs b, beq_refl b))
    | inr h ↦ ground (arith, h, contains-keep p xs b)
  ]

  pub NoDup-keep : (p : A → Bool) (xs : List A) → NoDup xs → NoDup (keep p xs)
  NoDup-keep p [] d = tt
  NoDup-keep p (x ∷ xs) d = ground (arith, NoDup-keep p xs d.1, contains-keep p xs x)
