-- ===== src/Sync/Ordered.antt =====
-- Rows in the order of their keys.
use open_chat_be.Prelude.{
  All, Bool, List, String, [], ap, arith, drop, either, either_case, false, keep, map, nat_eq, refl,
  some, string_eq, subst, suc, take, true, zero, ℕ, ◌&&◌, ◌∷◌, ◌≡◌,
}
use mathlib.Core.Option.{some-injective}
use open_chat_be.Text.{TextOrder}
use open_chat_be.Sync.Database.{is_after, IsAscending}
use open_chat_be.Sync.Serve.{last_of}

module _ {ℓ κ} {A : Type ℓ} {B : Type κ} where
  pub keep-map :
      (p : B → Bool) (f : A → B) (xs : List A) → keep p (map f xs) ≡ map f (keep (λ x. p (f x)) xs)
  keep-map p f [] = refl
  keep-map p f (x ∷ xs) = ground (arith, keep-map p f xs)

  pub take-map : (n : ℕ) (f : A → B) (xs : List A) → take n (map f xs) ≡ map f (take n xs)
  take-map zero f xs = refl
  take-map (suc n) f [] = refl
  take-map (suc n) f (x ∷ xs) = ap (λ ys. f x ∷ ys) (take-map n f xs)

module _ {ℓ} {A : Type ℓ} where
  pub keep-keep : (p q : A → Bool) (xs : List A) → keep (λ x. p x && q x) xs ≡ keep p (keep q xs)
  keep-keep p q [] = refl
  keep-keep p q (x ∷ xs) = ground (arith, keep-keep p q xs)

  pub keep-All : (p : A → Bool) (xs : List A) → All (λ x. p x ≡ true) xs → keep p xs ≡ xs
  keep-All p [] h = refl
  keep-All p (x ∷ xs) h = ground (arith, h.0, keep-All p xs h.1)

  pub keep-weaken :
      (p q : A → Bool) (xs : List A)
      → ((x : A) → p x ≡ true → q x ≡ true)
      → keep p (keep q xs) ≡ keep p xs
  keep-weaken p q [] h = refl
  keep-weaken p q (x ∷ xs) h = ground (arith, h x, keep-weaken p q xs h)

  pub All-keep {κ} : (P : A → Type κ) (p : A → Bool) (xs : List A) → All P xs → All P (keep p xs)
  All-keep P p [] h = tt
  All-keep P p (x ∷ xs) h =
      either (λ ys. All P ys) (p x) (h.0, All-keep P p xs h.1) (All-keep P p xs h.1)

  pub All-take {κ} : (P : A → Type κ) (n : ℕ) (xs : List A) → All P xs → All P (take n xs)
  All-take P zero xs h = tt
  All-take P (suc n) [] h = tt
  All-take P (suc n) (x ∷ xs) h = (h.0, All-take P n xs h.1)

  pub All-kept : (p : A → Bool) (xs : List A) → All (λ x. p x ≡ true) (keep p xs)
  All-kept p [] = tt
  All-kept p (x ∷ xs) =
      either_case (λ ys. All (λ y. p y ≡ true) ys) (p x) (λ h. (h, All-kept p xs))
        (λ h. All-kept p xs)

  pub All-last {κ} :
      (P : A → Type κ) (n : ℕ) (xs : List A) (r : A) → All P xs → last_of (take n xs) ≡ some r → P r
  All-last P zero xs r h e = absurd cc
  All-last P (suc n) [] r h e = absurd cc
  All-last P (suc zero) (x ∷ xs) r h e = subst P (some-injective x r e) h.0
  All-last P (suc (suc n)) (x ∷ []) r h e = subst P (some-injective x r e) h.0
  All-last P (suc (suc n)) (x ∷ y ∷ xs) r h e = All-last P (suc n) (y ∷ xs) r h.1 e

module _ (order : TextOrder) where
  pub is_after_irrefl : (k : String) → is_after order k k ≡ false
  is_after_irrefl k = ground (arith, order.total k k)

  is_after_asym : (a b : String) → is_after order a b ≡ true → is_after order b a ≡ false
  is_after_asym a b h = ground (arith, order.total b a)

  pub is_after_trans :
      (a b c : String)
      → is_after order a b ≡ true
      → is_after order b c ≡ true
      → is_after order a c ≡ true
  is_after_trans a b c h k = ground (arith, order.total b a, order.trans c a b)

  module _ {A : Type 0} (key : A → String) where
    pub IsAscending-keep :
        (p : A → Bool) (xs : List A) → IsAscending order key xs → IsAscending order key (keep p xs)
    IsAscending-keep p [] h = tt
    IsAscending-keep p (x ∷ xs) h =
        either (λ ys. IsAscending order key ys) (p x)
          (
            All-keep (λ later. is_after order (key x) (key later) ≡ true) p xs h.0,
            IsAscending-keep p xs h.1,
          )
          (IsAscending-keep p xs h.1)

    -- What is after the last row of a page is what the page leaves.
    pub keep_after_last :
        (n : ℕ) (xs : List A) (r : A)
        → IsAscending order key xs
        → last_of (take n xs) ≡ some r
        → keep (λ x. is_after order (key r) (key x)) xs ≡ drop n xs
    keep_after_last zero xs r h e = absurd cc
    keep_after_last (suc n) [] r h e = absurd cc
    keep_after_last (suc zero) (x ∷ xs) r h e =
        let same = some-injective x r e in
        subst (λ y. keep (λ z. is_after order (key y) (key z)) (x ∷ xs) ≡ xs) same
          (ground
            (arith, is_after_irrefl (key x), keep-All (λ z. is_after order (key x) (key z)) xs h.0))
    keep_after_last (suc (suc n)) (x ∷ []) r h e =
        let same = some-injective x r e in
        subst (λ y. keep (λ z. is_after order (key y) (key z)) (x ∷ []) ≡ []) same
          (ground (arith, is_after_irrefl (key x)))
    keep_after_last (suc (suc n)) (x ∷ y ∷ xs) r h e =
        let later =
          All-last (λ z. is_after order (key x) (key z) ≡ true) (suc n) (y ∷ xs) r h.0 e in
        let rest = keep_after_last (suc n) (y ∷ xs) r h.1 e in
        ground (arith, is_after_asym (key x) (key r) later, rest)

    pub IsAscending-take :
        (n : ℕ) (xs : List A) → IsAscending order key xs → IsAscending order key (take n xs)
    IsAscending-take zero xs h = tt
    IsAscending-take (suc n) [] h = tt
    IsAscending-take (suc n) (x ∷ xs) h = (
      All-take (λ later. is_after order (key x) (key later) ≡ true) n xs h.0,
      IsAscending-take n xs h.1,
    )
