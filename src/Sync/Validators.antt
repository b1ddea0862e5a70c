-- ===== src/Sync/Validators.antt =====
-- src/modules/peer_network/sync/services/validator_discovery.service.ts: which of the connected
-- servers vote, and with which weight. The mean of the scores is a fraction.
-- `local_compare` is the order of `localeCompare`.
pub mod Bounds
use open_chat_be.Prelude.{
  Bool, List, Map, String, [], contains, if◌then◌else◌, insert, keep, lookup, ltb, map, max, min,
  nat_beq, nat_eq, not, or_else, sort, string_eq, take, to_set, ℕ, ◌*◌, ◌+◌, ◌/◌, ◌==◌, ◌∷◌,
}
use open_chat_be.Text.{TextOrder}
use open_chat_be.Sync.Tables.{Mean, ServerNode, ServerScoreAggregate}
use open_chat_be.Sync.Database.{Queries, Tables}

pub record SyncValidator : Type 0 where
  pub mean_score : Mean
  pub peer_id : String
  pub weight : ℕ

module _ {D : Type 0} (order local_compare : TextOrder) (queries : Queries order D) where
  -- more weight first, then the identifier
  abbrev pub validator_before : SyncValidator → SyncValidator → Bool
  validator_before left right =
      if nat_beq right.weight left.weight
      then local_compare.before left.peer_id right.peer_id
      else ltb right.weight left.weight

  abbrev pub candidate_peer_ids : List String → String → List String
  candidate_peer_ids connected local_peer_id =
      keep (λ peer_id. not (peer_id == local_peer_id)) (to_set connected)

  abbrev pub aggregate_map : List ServerScoreAggregate → Map String Mean → Map String Mean
  aggregate_map [] m = m
  aggregate_map (row ∷ rows) m = aggregate_map rows (insert row.target_peer_id row.mean_score m)

  -- `Math.round`
  abbrev pub round : Mean → ℕ
  round m = (2 * m.numerator + m.denominator) / (2 * m.denominator)

  abbrev pub weight_of : Mean → ℕ
  weight_of mean_score = max 1 (min 100 (round mean_score))

  abbrev pub to_validator : Map String Mean → ServerNode → SyncValidator
  to_validator means row =
      let mean_score =
        or_else (lookup row.peer_id means) (record { numerator = 50; denominator = 1 }) in
      record { mean_score = mean_score; peer_id = row.peer_id; weight = weight_of mean_score }

  abbrev pub known_validators : List String → Tables D → List SyncValidator
  known_validators candidates t =
      let aggregates =
        queries.score_aggregates.find_all
          (λ (r : ServerScoreAggregate). contains candidates r.target_peer_id) t.aggregates in
      let nodes =
        queries.server_nodes.find_all (λ (r : ServerNode). contains candidates r.peer_id) t.nodes in
      map (to_validator (aggregate_map aggregates [])) nodes

  unfoldable pub discover_validators : List String → String → ℕ → Tables D → List SyncValidator
  discover_validators connected local_peer_id target_count t =
      elim (candidate_peer_ids connected local_peer_id) [
        | [] ↦ []
        | first ∷ rest ↦
            take (max 1 target_count) (sort validator_before (known_validators (first ∷ rest) t))
      ]
