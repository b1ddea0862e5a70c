-- ===== src/PeerNetwork/Reports/Aggregates.antt =====
-- The mean scores of servers: `compute_candidate_aggregates` and
-- `recompute_score_aggregate_for_target` of src/modules/peer_network/peer_network.service.ts.
pub mod Bounds
use open_chat_be.Prelude.{
  Bool, List, Map, Option, String, [], contains, has, if◌then◌else◌, insert, leb, lookup, ltb, map,
  max, nat_beq, nat_eq, none, some, sort, string_eq, true, values, ℕ, ◌&&◌, ◌*◌, ◌+◌, ◌==◌, ◌||◌,
  ◌∷◌, ◌≡◌,
}
use open_chat_be.Realtime.Keys.{◌⧺◌}
use open_chat_be.Sync.Tables.{ServerScoreReport}
use open_chat_be.PeerNetwork.Reports.{ReportTable}

-- The sum and the number of the scores of a target, and the date of the newest.
pub record ScoreSum : Type 0 where
  pub last_observed_at_ms : ℕ
  pub score_sum : ℕ
  pub score_vote_count : ℕ

-- `mean_score` is the fraction `score_sum / report_count`.
pub record CandidateAggregateSnapshot : Type 0 where
  pub last_observed_at_ms : ℕ
  pub report_count : ℕ
  pub score_sum : ℕ
  pub target_peer_id : String

pub record ScoreAggregate : Type 0 where
  pub last_report_at : ℕ
  pub report_count : ℕ
  pub score_sum : ℕ
  pub target_peer_id : String
  pub updated_at : ℕ

-- The rows of the mean scores, by target.
pub record AggregateTable (D : Type 0) : Type 0 where
  pub find_unique : String → D → Option ScoreAggregate
  pub upsert : String → (Option ScoreAggregate → ScoreAggregate) → D → D
  pub delete : String → D → D
  pub find-upsert :
      (key other : String) (f : Option ScoreAggregate → ScoreAggregate) (d : D)
      → find_unique other (upsert key f d)
        ≡ (if key == other then some (f (find_unique key d)) else find_unique other d)
  pub find-delete :
      (key other : String) (d : D)
      → find_unique other (delete key d) ≡ (if key == other then none else find_unique other d)

abbrev pub map_key : ServerScoreReport → String
map_key report = report.reporter_peer_id ⧺ ":" ⧺ report.target_peer_id

-- The first report of each reporter on each target, in order.
unfoldable pub latest_report_map :
    List ServerScoreReport → Map String ServerScoreReport → Map String ServerScoreReport
latest_report_map [] m = m
latest_report_map (report ∷ reports) m =
    latest_report_map reports
      (if has (map_key report) m then m else insert (map_key report) report m)

abbrev pub voted : Option ScoreSum → ServerScoreReport → ScoreSum
voted none report = record {
  last_observed_at_ms = report.observed_at;
  score_sum = report.score;
  score_vote_count = 1;
}
voted (some existing) report = record {
  last_observed_at_ms = max existing.last_observed_at_ms report.observed_at;
  score_sum = existing.score_sum + report.score;
  score_vote_count = existing.score_vote_count + 1;
}

unfoldable pub sum_reports : List ServerScoreReport → Map String ScoreSum → Map String ScoreSum
sum_reports [] m = m
sum_reports (report ∷ reports) m =
    sum_reports reports
      (insert report.target_peer_id (voted (lookup report.target_peer_id m) report) m)

abbrev pub to_snapshot : String × ScoreSum → CandidateAggregateSnapshot
to_snapshot (target_peer_id, value) = record {
  last_observed_at_ms = value.last_observed_at_ms;
  report_count = value.score_vote_count;
  score_sum = value.score_sum;
  target_peer_id = target_peer_id;
}

-- The comparison puts a higher mean first, then more reports, then the newer; fractions are compared
-- by their cross products.
abbrev pub aggregate_before : CandidateAggregateSnapshot → CandidateAggregateSnapshot → Bool
aggregate_before a b =
    let left = a.score_sum * b.report_count in
    let right = b.score_sum * a.report_count in
    ltb right left
    || (nat_beq left right
        && (ltb b.report_count a.report_count
            || (nat_beq a.report_count b.report_count
                && leb b.last_observed_at_ms a.last_observed_at_ms)))

-- No list of targets, or an empty one, means all.
abbrev pub is_asked : List String → ServerScoreReport → Bool
is_asked [] report = true
is_asked (target ∷ targets) report = contains (target ∷ targets) report.target_peer_id

-- The date of a report is not before the cutoff `now - age`.
abbrev pub is_live : ℕ → ℕ → List String → ServerScoreReport → Bool
is_live max_report_age_seconds now targets report =
    ltb now report.expires_at
    && leb now (report.observed_at + max_report_age_seconds * 1000)
    && is_asked targets report

module _ {D A : Type 0} (reports : ReportTable D) (aggregates : AggregateTable A)
    (score_default_max_report_age_seconds : ℕ) where
  unfoldable pub compute_candidate_aggregates :
      ℕ → ℕ → List String → D → List CandidateAggregateSnapshot
  compute_candidate_aggregates max_report_age_seconds now targets d =
      let latest =
        values (
          latest_report_map (reports.find_many (is_live max_report_age_seconds now targets) d)
            []) in
      sort aggregate_before (map to_snapshot (sum_reports latest []))

  abbrev pub stored_aggregate : String → ℕ → CandidateAggregateSnapshot → ScoreAggregate
  stored_aggregate target_peer_id now aggregate = record {
    last_report_at = aggregate.last_observed_at_ms;
    report_count = aggregate.report_count;
    score_sum = aggregate.score_sum;
    target_peer_id = target_peer_id;
    updated_at = now;
  }

  unfoldable pub recompute_score_aggregate_for_target : ℕ → String → D → A → A
  recompute_score_aggregate_for_target now target_peer_id d a =
      elim (compute_candidate_aggregates score_default_max_report_age_seconds now
        (target_peer_id ∷ []) d) [
          | [] ↦ aggregates.delete target_peer_id a
          | aggregate ∷ rest ↦
              aggregates.upsert target_peer_id
                (λ old. stored_aggregate target_peer_id now aggregate) a
        ]
