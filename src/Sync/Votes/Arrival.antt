-- ===== src/Sync/Votes/Arrival.antt =====
-- The order in which the validators answer.
use open_chat_be.Prelude.{
  Bool-cases, List, String, ap, arith, eq_of_beq, false, inl, inr, length, nat_eq, refl, string_eq,
  subst, ◌==◌, ◌∙◌, ◌∷◌, ◌≡◌,
}
use mathlib.Core.Logic.{∥∥₁_elim}
use mathlib.Core.HLevel.{×₃_prop}
use mathlib.Core.List.{Perm, Permᴰ}
use native.Mathlib.Nat.{ℕ_set}
use open_chat_be.Text.{TextOrder}
use open_chat_be.Sync.Votes.{ValidatorVoteResult, resolve_row_consensus}
use open_chat_be.Sync.Votes.Counting.{support, turnout}
use open_chat_be.Sync.Votes.Winner.{verdict, strong_consensus, resolve_row_consensus-IsMost}

module _ (key h : String) where
  abbrev SameCount : List ValidatorVoteResult → List ValidatorVoteResult → Type 0
  SameCount vs ws =
      (support key h vs ≡ support key h ws)
      × (turnout key vs ≡ turnout key ws)
      × (length vs ≡ length ws)

  same_head :
      (v w : ValidatorVoteResult) (vs ws : List ValidatorVoteResult)
      → v ≡ w
      → SameCount vs ws
      → SameCount (v ∷ vs) (w ∷ ws)
  unfolding support turnout
  same_head v w vs ws e c = subst (λ x. SameCount (v ∷ vs) (x ∷ ws)) e (ground arith)

  SameCount-permᴰ : {vs ws : List ValidatorVoteResult} → Permᴰ vs ws → SameCount vs ws
  unfolding support turnout
  SameCount-permᴰ Permᴰ.nil = (refl, refl, refl)
  SameCount-permᴰ (Permᴰ.cons {a} {b} {l₁} {l₂} e p) = same_head a b l₁ l₂ e (SameCount-permᴰ p)
  SameCount-permᴰ (Permᴰ.swap {a} {b} {a'} {b'} {l} e f) =
      subst (λ x. SameCount (a ∷ b ∷ l) (a' ∷ x ∷ l)) e
        (subst (λ x. SameCount (a ∷ b ∷ l) (x ∷ a ∷ l)) f (omega arith))
  SameCount-permᴰ (Permᴰ.trans p q) =
      let c = SameCount-permᴰ p in let d = SameCount-permᴰ q in (c.0 ∙ d.0, c.1 ∙ d.1, c.2 ∙ d.2)

  SameCount-perm : (vs ws : List ValidatorVoteResult) → Perm vs ws → SameCount vs ws
  SameCount-perm vs ws p = ∥∥₁_elim p (×₃_prop (ℕ_set _ _) (ℕ_set _ _) (ℕ_set _ _)) SameCount-permᴰ

-- If a consensus is strong, then it is the same, and strong, in whatever order the validators
-- answer.
pub resolve_row_consensus-order :
    (order : TextOrder) (key : String) (vs ws : List ValidatorVoteResult)
    → Perm vs ws
    → (resolve_row_consensus order key vs).weak_consensus ≡ false
    → ((resolve_row_consensus order key ws).chosen_hash
        ≡ (resolve_row_consensus order key vs).chosen_hash)
      × ((resolve_row_consensus order key ws).weak_consensus ≡ false)
resolve_row_consensus-order order key vs ws p strong =
    let chosen = (verdict order key vs).chosen_hash in
    let other = (verdict order key ws).chosen_hash in
    let (majority, two, rest) = strong_consensus order key vs strong in
    let (most, _, weak) = resolve_row_consensus-IsMost order key ws in
    let same = SameCount-perm key chosen vs ws p in
    let same' = SameCount-perm key other vs ws p in
    let equal : other ≡ chosen = elim (Bool-cases (other == chosen)) [
      | inl e ↦ eq_of_beq other chosen e
      | inr n ↦ absurd (
          omega (
            arith,
            majority,
            same.0,
            same'.0,
            most chosen,
            rest other (λ q. ground (arith, string_eq.beq_iff other chosen)),
          ))
    ] in
    (
      equal,
      ground (arith, weak, majority, two, same.0, same.1, same.2, ap (λ x. support key x ws) equal),
    )
