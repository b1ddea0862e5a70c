-- ===== src/Sync/Validators/Bounds.antt =====
-- Who may vote, and how much a vote weighs.
use open_chat_be.Prelude.{
  All, All-asked, All-sort, IsSortedBy, List, List-cases, String, [], arith, contains,
  contains-keep, contains-to_set, false, inl, inr, length, length-take, map, max, nat_eq, not, sort,
  sort-IsSortedBy, string_eq, subst, suc, sym, take, to_set, true, zero, ℕ, ◌==◌, ◌∷◌, ◌≡◌, ◌≢◌,
  ◌≤◌,
}
use open_chat_be.Text.{TextOrder}
use open_chat_be.Sync.Tables.{ServerNode, ServerScoreAggregate}
use open_chat_be.Sync.Database.{Queries, Tables}
use open_chat_be.Sync.Validators.{
  SyncValidator, discover_validators, known_validators, candidate_peer_ids, to_validator,
  aggregate_map, validator_before,
}

module _ {D : Type 0} (order local_compare : TextOrder) (queries : Queries order D) where
  -- A connected server other than this one, with a weight from 1 to 100.
  abbrev pub IsEligible : List String → String → SyncValidator → Type 0
  IsEligible connected local_peer_id v =
      (contains connected v.peer_id ≡ true)
      × (v.peer_id ≢ local_peer_id)
      × (1 ≤ v.weight)
      × (v.weight ≤ 100)

  All-map_of :
      {A B : Type 0} (f : A → B) (P : B → Type 0) (xs : List A)
      → All (λ x. P (f x)) xs
      → All P (map f xs)
  All-map_of f P [] h = tt
  All-map_of f P (x ∷ xs) h = (h.0, All-map_of f P xs h.1)

  IsEligible-known :
      (connected : List String) (local_peer_id : String) (t : Tables D)
      → All (IsEligible connected local_peer_id) (
          known_validators order local_compare queries
            (candidate_peer_ids order local_compare queries connected local_peer_id)
            t)
  IsEligible-known connected local_peer_id t =
      let candidates = candidate_peer_ids order local_compare queries connected local_peer_id in
      let test = λ (r : ServerNode). contains candidates r.peer_id in
      let means =
        aggregate_map order local_compare queries
          (queries.score_aggregates.find_all
            (λ (r : ServerScoreAggregate). contains candidates r.target_peer_id) t.aggregates)
          [] in
      All-map_of (to_validator order local_compare queries means)
        (IsEligible connected local_peer_id) (queries.server_nodes.find_all test t.nodes)
        (All-asked test
          (λ (r : ServerNode).
            IsEligible connected local_peer_id (to_validator order local_compare queries means r))
          (queries.server_nodes.find_all test t.nodes) (queries.server_nodes.rows t.nodes)
          (queries.server_nodes.find_all-rows test t.nodes)
          (λ r h. (
            ground (
              arith,
              h,
              contains-keep (λ p. not (p == local_peer_id)) (to_set connected) r.peer_id,
              contains-to_set connected r.peer_id,
            ),
            ground (
              arith,
              h,
              contains-keep (λ p. not (p == local_peer_id)) (to_set connected) r.peer_id,
              string_eq.beq_iff r.peer_id local_peer_id,
            ),
            ground arith,
            ground arith,
          )))

  All-taken :
      (P : SyncValidator → Type 0) (n : ℕ) (vs : List SyncValidator) → All P vs → All P (take n vs)
  All-taken P zero vs h = tt
  All-taken P (suc n) [] h = tt
  All-taken P (suc n) (v ∷ vs) h = (h.0, All-taken P n vs h.1)

  sorted-taken :
      (n : ℕ) (vs : List SyncValidator)
      → IsSortedBy (validator_before order local_compare queries) vs
      → IsSortedBy (validator_before order local_compare queries) (take n vs)
  sorted-taken zero vs h = tt
  sorted-taken (suc n) [] h = tt
  sorted-taken (suc n) (v ∷ vs) h = (
    All-taken (λ later. validator_before order local_compare queries v later ≡ true) n vs h.0,
    sorted-taken n vs h.1,
  )

  validator_before_total :
      (a b : SyncValidator)
      → validator_before order local_compare queries a b ≡ false
      → validator_before order local_compare queries b a ≡ true
  validator_before_total a b h = ground (arith, local_compare.total a.peer_id b.peer_id)

  validator_before_trans :
      (a b c : SyncValidator)
      → validator_before order local_compare queries a b ≡ true
      → validator_before order local_compare queries b c ≡ true
      → validator_before order local_compare queries a c ≡ true
  validator_before_trans a b c h k =
      ground (arith, local_compare.trans a.peer_id b.peer_id c.peer_id)

  abbrev IsChosen : List String → String → ℕ → List SyncValidator → Type 0
  IsChosen connected local_peer_id target_count validators =
      All (IsEligible connected local_peer_id) validators
      × (length validators ≤ max 1 target_count)
      × IsSortedBy (validator_before order local_compare queries) validators

  IsChosen-of :
      (connected : List String) (local_peer_id : String) (target_count : ℕ)
      (vs : List SyncValidator)
      → All (IsEligible connected local_peer_id) vs
      → IsChosen connected local_peer_id target_count
          (take (max 1 target_count) (sort (validator_before order local_compare queries) vs))
  IsChosen-of connected local_peer_id target_count vs h =
      let before = validator_before order local_compare queries in
      (
        All-taken (IsEligible connected local_peer_id) (max 1 target_count) (sort before vs)
            (All-sort (IsEligible connected local_peer_id) before vs h),
        omega (arith, length-take (max 1 target_count) (sort before vs)),
        sorted-taken (max 1 target_count) (sort before vs)
            (sort-IsSortedBy before validator_before_total validator_before_trans vs),
      )

  discover-nobody :
      (connected : List String) (local_peer_id : String) (target_count : ℕ) (t : Tables D)
      → candidate_peer_ids order local_compare queries connected local_peer_id ≡ []
      → discover_validators order local_compare queries connected local_peer_id target_count t ≡ []
  unfolding discover_validators
  discover-nobody connected local_peer_id target_count t h = cc h

  discover-some :
      (connected : List String) (local_peer_id : String) (target_count : ℕ) (t : Tables D)
      (first : String) (others : List String)
      → candidate_peer_ids order local_compare queries connected local_peer_id ≡ first ∷ others
      → discover_validators order local_compare queries connected local_peer_id target_count t
        ≡ take (max 1 target_count) (
            sort (validator_before order local_compare queries) (
              known_validators order local_compare queries
                (candidate_peer_ids order local_compare queries connected local_peer_id)
                t))
  unfolding discover_validators
  discover-some connected local_peer_id target_count t first others h = cc h

  -- The validators are connected servers other than this one, at most as many as asked for, or one,
  -- the heaviest first, and each has a weight from 1 to 100.
  pub discover_validators-IsEligible :
      (connected : List String) (local_peer_id : String) (target_count : ℕ) (t : Tables D)
      → let validators =
          discover_validators order local_compare queries connected local_peer_id target_count t in
        All (IsEligible connected local_peer_id) validators
        × (length validators ≤ max 1 target_count)
        × IsSortedBy (validator_before order local_compare queries) validators
  discover_validators-IsEligible connected local_peer_id target_count t =
      elim (List-cases (candidate_peer_ids order local_compare queries connected local_peer_id)) [
        | inl empty ↦
            subst (λ vs. IsChosen connected local_peer_id target_count vs)
              (sym (discover-nobody connected local_peer_id target_count t empty))
              (tt, omega arith, tt)
        | inr (first, others, some_there) ↦
            subst (λ vs. IsChosen connected local_peer_id target_count vs)
              (sym (discover-some connected local_peer_id target_count t first others some_there))
              (IsChosen-of connected local_peer_id target_count _
                (IsEligible-known connected local_peer_id t))
      ]
