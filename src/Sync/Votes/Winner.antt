-- ===== src/Sync/Votes/Winner.antt =====
-- The hash that is chosen, and when the choice is strong.
use open_chat_be.Prelude.{
  All, All-lookup, All-of_lookup, All-of_sort, All-sort, IsSortedBy, IsUnique, List, Map,
  Option-cases, String, [], ap, arith, false, inl, inr, leb, length, lookup, ltb, nat_eq, not,
  or_else, refl, some, sort, sort-IsSortedBy, sort-eq-nil, string_eq, subst, sym, true, ℕ, ◌&&◌,
  ◌*◌, ◌+◌, ◌<◌, ◌||◌, ◌∙◌, ◌∷◌, ◌≡◌, ◌≢◌, ◌≤◌,
}
use open_chat_be.Text.{TextOrder}
use open_chat_be.Sync.Votes.{
  vote_for, decide_row, resolve_row_consensus, no_votes, count_votes, RowConsensusResult,
  ValidatorVoteResult, Tally, entry_before,
}
use open_chat_be.Sync.Votes.Counting.{
  supporters_of-count_votes, responding-count_votes, support-le-turnout, supporters_of,
  weight_of-count_votes, count_votes-IsUnique, support, turnout, voters, weight_of,
}

module _ (key : String) where
  voters_of_empty : (vs : List ValidatorVoteResult) → voters key "" vs ≡ []
  unfolding voters
  voters_of_empty [] = refl
  voters_of_empty (v ∷ vs) =
      ground (arith, voters_of_empty vs, λ (h : String). string_eq.beq_iff h "")

  -- Two hashes cannot have more than the weight of all the votes between them.
  support-add-le :
      (g h : String) (vs : List ValidatorVoteResult)
      → g ≢ h
      → support key g vs + support key h vs ≤ turnout key vs
  unfolding support turnout
  support-add-le g h [] n = omega arith
  support-add-le g h (v ∷ vs) n = elim (Option-cases (vote_for key v)) [
    | inl e ↦ ground (arith, e, support-add-le g h vs n)
    | inr (x, e) ↦
        ground (arith, e, support-add-le g h vs n, string_eq.beq_iff x g, string_eq.beq_iff x h)
  ]

module _ (order : TextOrder) where
  open order use {before, total, trans}

  total_entries :
      (x y : String × ℕ) → entry_before order x y ≡ false → entry_before order y x ≡ true
  total_entries x y h = ground (arith, total x.0 y.0)

  trans_entries :
      (x y z : String × ℕ)
      → entry_before order x y ≡ true
      → entry_before order y z ≡ true
      → entry_before order x z ≡ true
  trans_entries x y z h k = ground (arith, trans x.0 y.0 z.0)

  -- The first entry of the sorted list is an entry of the map, and none has more weight.
  winner_lem :
      (m : Map String ℕ) (w : String × ℕ) (rest : List (String × ℕ))
      → IsUnique m
      → sort (entry_before order) m ≡ w ∷ rest
      → (lookup w.0 m ≡ some w.1) × ((h : String) → or_else (lookup h m) 0 ≤ w.1)
  winner_lem m w rest u e =
      let found : All (λ p. lookup p.0 m ≡ some p.1) (w ∷ rest) =
        subst (All (λ p. lookup p.0 m ≡ some p.1)) e
          (All-sort (λ p. lookup p.0 m ≡ some p.1) (entry_before order) m (All-lookup m u)) in
      let sorted : IsSortedBy (entry_before order) (w ∷ rest) =
        subst (IsSortedBy (entry_before order)) e
          (sort-IsSortedBy (entry_before order) total_entries trans_entries m) in
      let first : entry_before order w w ≡ true = ground (arith, total_entries w w) in
      let least : All (λ p. entry_before order w p ≡ true) m =
        All-of_sort (λ p. entry_before order w p ≡ true) (entry_before order) m
          (subst (All (λ p. entry_before order w p ≡ true)) (sym e) (first, sorted.0)) in
      (found.0, λ h. most m w h least)
    where
      most :
          (m : Map String ℕ) (w : String × ℕ) (h : String)
          → All (λ p. entry_before order w p ≡ true) m
          → or_else (lookup h m) 0 ≤ w.1
      most m w h least = elim (Option-cases (lookup h m)) [
        | inl n ↦ rw n (omega arith)
        | inr (x, n) ↦ rw n (
            let b : entry_before order w (h, x) ≡ true =
              All-of_lookup (λ p. entry_before order w p ≡ true) m h x least n in
            ground arith)
      ]

  module _ (key : String) (votes : List ValidatorVoteResult) where
    abbrev tally : Tally
    tally = count_votes key votes no_votes

    abbrev pub verdict : RowConsensusResult
    verdict = resolve_row_consensus order key votes

    counted : (h : String) → weight_of h tally ≡ support key h votes
    unfolding lookup
    counted h = ground (arith, weight_of-count_votes key h votes no_votes)

    unique : IsUnique tally.hash_weight_map
    unique = count_votes-IsUnique key votes no_votes tt

    -- What is decided on a sorted tally.
    Decision : List (String × ℕ) → Type 0
    Decision [] =
        (verdict.chosen_hash ≡ "")
        × (verdict.supporting_peer_ids ≡ [])
        × (verdict.weak_consensus ≡ true)
    Decision (w ∷ rest) =
        (verdict.chosen_hash ≡ w.0)
        × (verdict.supporting_peer_ids ≡ supporters_of w.0 tally)
        × (verdict.weak_consensus ≡ (
            not (ltb 0 tally.responding_weight && ltb tally.responding_weight (2 * w.1))
            || leb (length votes) 1))

    abbrev pub IsMost : RowConsensusResult → Type 0
    IsMost r =
        ((h : String) → support key h votes ≤ support key r.chosen_hash votes)
        × (r.supporting_peer_ids ≡ voters key r.chosen_hash votes)
        × (r.weak_consensus ≡ (
            not (ltb (turnout key votes) (2 * support key r.chosen_hash votes))
            || leb (length votes) 1))

    decided :
        (es : List (String × ℕ))
        → sort (entry_before order) tally.hash_weight_map ≡ es
        → Decision es
    unfolding resolve_row_consensus decide_row Decision
    decided [] e = (ground (arith, e), ground (arith, e), ground (arith, e))
    decided (w ∷ rest) e = (ground (arith, e), ground (arith, e), ground (arith, e))

    responded : tally.responding_weight ≡ turnout key votes
    responded = ground (arith, responding-count_votes key votes no_votes)

    supporters : (h : String) → supporters_of h tally ≡ voters key h votes
    unfolding lookup
    supporters h = supporters_of-count_votes key h votes no_votes

    settled :
        (es : List (String × ℕ))
        → sort (entry_before order) tally.hash_weight_map ≡ es
        → IsMost verdict
    unfolding Decision lookup
    settled [] e =
        let (chosen, supp, weak) = decided [] e in
        let none_left : tally.hash_weight_map ≡ [] =
          sort-eq-nil (entry_before order) tally.hash_weight_map e in
        let nothing : (h : String) → support key h votes ≡ 0 =
          λ h. sym (counted h) ∙ ap (λ m. or_else (lookup h m) 0) none_left in
        (
          λ h. omega (arith, nothing h),
          supp ∙ sym (ap (λ h. voters key h votes) chosen ∙ voters_of_empty key votes),
          ground (arith, weak, nothing verdict.chosen_hash),
        )
    settled (w ∷ rest) e =
        let (chosen, supp, weak) = decided (w ∷ rest) e in
        let (found, most) = winner_lem tally.hash_weight_map w rest unique e in
        let exact : support key verdict.chosen_hash votes ≡ w.1 =
          ap (λ h. support key h votes) chosen ∙ sym (counted w.0) ∙ ap (λ o. or_else o 0) found in
        (
          λ h. omega (arith, exact, most h, counted h),
          supp ∙ supporters w.0 ∙ sym (ap (λ h. voters key h votes) chosen),
          ground (arith, weak, exact, responded, support-le-turnout key verdict.chosen_hash votes),
        )

    -- No hash has more support than the chosen one, the supporters are those that voted for it,
    -- and the consensus is strong if the chosen hash has more than half of the weight of the votes
    -- and more than one validator answered.
    pub resolve_row_consensus-IsMost : IsMost verdict
    resolve_row_consensus-IsMost = settled (sort (entry_before order) tally.hash_weight_map) refl

    -- With a strong consensus every other hash has less than half of the weight of the votes.
    pub strong_consensus :
        verdict.weak_consensus ≡ false
        → (turnout key votes < 2 * support key verdict.chosen_hash votes)
          × (2 ≤ length votes)
          × ((h : String) → h ≢ verdict.chosen_hash → 2 * support key h votes < turnout key votes)
    strong_consensus strong =
        let (most, _, weak) = resolve_row_consensus-IsMost in
        let majority : turnout key votes < 2 * support key verdict.chosen_hash votes =
          ground arith in
        (
          majority,
          ground arith,
          λ h n. omega (arith, support-add-le key h verdict.chosen_hash votes n),
        )
