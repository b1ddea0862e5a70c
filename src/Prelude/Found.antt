-- ===== src/Prelude/Found.antt =====
-- What holds of the rows that a query finds, in whatever order it gives them.
use mathlib.Core.Path.{◌≡◌, refl, ap, sym, ◌∙◌}
use mathlib.Core.Logic.{∥∥₁_elim}
use mathlib.Core.Bool.{Bool, Bool-set, true, ◌&&◌}
use mathlib.Core.List.{List, [], ◌∷◌, Perm, Permᴰ}
use native.Mathlib.Omega.{arith}
use open_chat_be.Prelude.Lists.{All, keep}

module _ {A : Type 0} (test : A → Bool) where
  every : List A → Bool
  every [] = true
  every (x ∷ xs) = test x && every xs

  every-permᴰ : {xs ys : List A} → Permᴰ xs ys → every xs ≡ every ys
  unfolding every
  every-permᴰ Permᴰ.nil = refl
  every-permᴰ (Permᴰ.cons {a} {b} {l₁} {l₂} e p) = cc (e, every-permᴰ p)
  every-permᴰ (Permᴰ.swap {a} {b} {a'} {b'} {l} e f) = ground (arith, ap test e, ap test f)
  every-permᴰ (Permᴰ.trans p q) = every-permᴰ p ∙ every-permᴰ q

  every-perm : (xs ys : List A) → Perm xs ys → every xs ≡ every ys
  every-perm xs ys p = ∥∥₁_elim p (Bool-set _ _) every-permᴰ

  every-keep : (xs : List A) → every (keep test xs) ≡ true
  unfolding every
  every-keep [] = refl
  every-keep (x ∷ xs) = ground (arith, every-keep xs)

  every-All {κ} :
      (P : A → Type κ) (xs : List A) → ((x : A) → test x ≡ true → P x) → every xs ≡ true → All P xs
  unfolding every
  every-All P [] f h = tt
  every-All P (x ∷ xs) f h = (f x (ground (arith, h)), every-All P xs f (ground (arith, h)))

  -- What a query gives, in whatever order.
  pub All-asked {κ} :
      (P : A → Type κ) (found rows : List A)
      → Perm found (keep test rows)
      → ((x : A) → test x ≡ true → P x)
      → All P found
  All-asked P found rows p f =
      every-All P found f (every-perm found (keep test rows) p ∙ every-keep rows)

  All-every : (xs : List A) → All (λ x. test x ≡ true) xs → every xs ≡ true
  unfolding every
  All-every [] h = refl
  All-every (x ∷ xs) h = ground (arith, h.0, All-every xs h.1)

  -- A test that holds of all rows of one order holds of all rows of another.
  pub All-perm :
      (xs ys : List A) → Perm xs ys → All (λ x. test x ≡ true) xs → All (λ x. test x ≡ true) ys
  All-perm xs ys p h =
      every-All (λ x. test x ≡ true) ys (λ x t. t) (sym (every-perm xs ys p) ∙ All-every xs h)
