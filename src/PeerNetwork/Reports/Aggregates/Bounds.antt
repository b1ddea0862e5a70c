-- ===== src/PeerNetwork/Reports/Aggregates/Bounds.antt =====
-- A mean score is one of reports that hold, and in the bounds of a score.
use open_chat_be.Prelude.{
  All, All-imp, All-perm, All-sort, Bool, Bool-cases, List, List-cases, Map, Option, String, [],
  arith, beq_refl, either, either_case, inl, inr, insert, keep, leb, lookup, map, nat_eq, none,
  refl, some, string_eq, subst, true, values, ℕ, ◌&&◌, ◌*◌, ◌+◌, ◌==◌, ◌∷◌, ◌≡◌, ◌≢◌, ◌≤◌,
}
use mathlib.Core.List.Perm
use mathlib.Core.Option.{some-injective}
use open_chat_be.Sync.Tables.{ServerScoreReport}
use open_chat_be.PeerNetwork.Reports.{ReportTable}
use open_chat_be.PeerNetwork.Reports.Aggregates.{
  ScoreSum, CandidateAggregateSnapshot, ScoreAggregate, AggregateTable, latest_report_map,
  sum_reports, voted, to_snapshot, aggregate_before, is_live, compute_candidate_aggregates,
  recompute_score_aggregate_for_target, stored_aggregate,
}

module _ {V : Type 0} (Q : V → Type 0) where
  All-insert :
      (k : String) (v : V) (m : Map String V)
      → Q v
      → All (λ (p : String × V). Q p.1) m
      → All (λ (p : String × V). Q p.1) (insert k v m)
  unfolding insert
  All-insert k v [] new old = (new, tt)
  All-insert k v ((known, w) ∷ m) new old =
      either (λ m'. All (λ (p : String × V). Q p.1) m') (known == k) (new, old.1)
        (old.0, All-insert k v m new old.1)

  All-found :
      (k : String) (v : V) (m : Map String V)
      → All (λ (p : String × V). Q p.1) m
      → lookup k m ≡ some v
      → Q v
  unfolding lookup
  All-found k v [] all found = absurd cc
  All-found k v ((known, w) ∷ m) all found = elim (Bool-cases (known == k)) [
    | inl e ↦ subst Q (some-injective w v (ground (arith, found, e))) all.0
    | inr e ↦ All-found k v m all.1 (ground (arith, found, e))
  ]

  All-values : (m : Map String V) → All (λ (p : String × V). Q p.1) m → All Q (values m)
  All-values [] h = tt
  All-values ((k, v) ∷ m) h = (h.0, All-values m h.1)

-- A report that may count at `now`, and a sum of such.
abbrev IsCounted : ℕ → ℕ → ServerScoreReport → Type 0
IsCounted age now r = (r.score ≤ 100) × (now ≤ r.observed_at + age * 1000)

abbrev IsSum : ℕ → ℕ → ScoreSum → Type 0
IsSum age now s =
    (1 ≤ s.score_vote_count)
    × (s.score_sum ≤ 100 * s.score_vote_count)
    × (now ≤ s.last_observed_at_ms + age * 1000)

latest_report_map-IsCounted :
    (age now : ℕ) (reports : List ServerScoreReport) (m : Map String ServerScoreReport)
    → All (IsCounted age now) reports
    → All (λ (p : String × ServerScoreReport). IsCounted age now p.1) m
    → All (λ (p : String × ServerScoreReport). IsCounted age now p.1) (latest_report_map reports m)
unfolding latest_report_map
latest_report_map-IsCounted age now [] m h known = known
latest_report_map-IsCounted age now (r ∷ rs) m h known =
    latest_report_map-IsCounted age now rs _ h.1 (
      either (λ m'. All (λ (p : String × ServerScoreReport). IsCounted age now p.1) m') _ known
        (All-insert (IsCounted age now) _ r m h.0 known))

voted-IsSum :
    (age now : ℕ) (old : Option ScoreSum) (r : ServerScoreReport)
    → ((s : ScoreSum) → old ≡ some s → IsSum age now s)
    → IsCounted age now r
    → IsSum age now (voted old r)
voted-IsSum age now none r h k = (omega arith, omega (arith, k.0), k.1)
voted-IsSum age now (some s) r h k =
    let (one, sum, last) = h s refl in (omega arith, omega (arith, sum, k.0), omega (arith, last))

sum_reports-IsSum :
    (age now : ℕ) (reports : List ServerScoreReport) (m : Map String ScoreSum)
    → All (IsCounted age now) reports
    → All (λ (p : String × ScoreSum). IsSum age now p.1) m
    → All (λ (p : String × ScoreSum). IsSum age now p.1) (sum_reports reports m)
unfolding sum_reports
sum_reports-IsSum age now [] m h known = known
sum_reports-IsSum age now (r ∷ rs) m h known = sum_reports-IsSum age now rs _ h.1 (
    All-insert (IsSum age now) r.target_peer_id _ m
      (voted-IsSum age now (lookup r.target_peer_id m) r
        (λ s found. All-found (IsSum age now) r.target_peer_id s m known found) h.0)
      known)

abbrev IsMean : ℕ → ℕ → CandidateAggregateSnapshot → Type 0
IsMean age now a =
    (1 ≤ a.report_count)
    × (a.score_sum ≤ 100 * a.report_count)
    × (now ≤ a.last_observed_at_ms + age * 1000)

snapshots-IsMean :
    (age now : ℕ) (m : Map String ScoreSum)
    → All (λ (p : String × ScoreSum). IsSum age now p.1) m
    → All (IsMean age now) (map to_snapshot m)
snapshots-IsMean age now [] h = tt
snapshots-IsMean age now (p ∷ m) h = (h.0, snapshots-IsMean age now m h.1)

module _ {D A : Type 0} (reports : ReportTable D) (aggregates : AggregateTable A)
    (score_default_max_report_age_seconds : ℕ) where
  counted : ℕ → ℕ → List String → ServerScoreReport → Bool
  counted age now targets r = is_live age now targets r && leb r.score 100

  kept-counted :
      (age now : ℕ) (targets : List String) (rows : List ServerScoreReport)
      → All (λ (r : ServerScoreReport). r.score ≤ 100) rows
      → All (λ r. counted age now targets r ≡ true) (keep (is_live age now targets) rows)
  unfolding counted
  kept-counted age now targets [] h = tt
  kept-counted age now targets (r ∷ rs) h =
      either_case (λ xs. All (λ r. counted age now targets r ≡ true) xs) (is_live age now targets r)
        (λ live. (ground (arith, live, h.0), kept-counted age now targets rs h.1))
        (λ out. kept-counted age now targets rs h.1)

  found-IsCounted :
      (age now : ℕ) (targets : List String) (d : D)
      → All (λ (r : ServerScoreReport). r.score ≤ 100) (reports.rows d)
      → All (IsCounted age now) (reports.find_many (is_live age now targets) d)
  unfolding counted
  found-IsCounted age now targets d scores =
      All-imp (λ r. counted age now targets r ≡ true) (IsCounted age now)
        (reports.find_many (is_live age now targets) d)
        (λ r h. (ground (arith, h), ground (arith, h)))
        (All-perm (counted age now targets) (keep (is_live age now targets) (reports.rows d))
          (reports.find_many (is_live age now targets) d)
          (Perm.symm (reports.find_many-rows (is_live age now targets) d))
          (kept-counted age now targets (reports.rows d) scores))

  aggregates-IsMean :
      (age now : ℕ) (targets : List String) (d : D)
      → All (λ (r : ServerScoreReport). r.score ≤ 100) (reports.rows d)
      → All (IsMean age now) (
          compute_candidate_aggregates reports aggregates score_default_max_report_age_seconds age
            now targets d)
  unfolding compute_candidate_aggregates
  aggregates-IsMean age now targets d scores = All-sort (IsMean age now) aggregate_before _ (
      snapshots-IsMean age now _ (
        sum_reports-IsSum age now _ []
          (All-values (IsCounted age now) _ (
            latest_report_map-IsCounted age now _ [] (found-IsCounted age now targets d scores) tt))
          tt))

  -- If every score in the reports is at most 100, then the mean score that is stored for a target is
  -- at most 100 too, and comes of one report or more, the newest of which is not too old. The mean
  -- scores of other targets stay.
  pub recompute_score_aggregate_for_target-IsBounded :
      (now : ℕ) (target : String) (d : D) (a : A)
      → All (λ (r : ServerScoreReport). r.score ≤ 100) (reports.rows d)
      → let a' =
          recompute_score_aggregate_for_target reports aggregates
            score_default_max_report_age_seconds now target d a in
        ((stored : ScoreAggregate)
          → aggregates.find_unique target a' ≡ some stored
          → (1 ≤ stored.report_count)
            × (stored.score_sum ≤ 100 * stored.report_count)
            × (now ≤ stored.last_report_at + score_default_max_report_age_seconds * 1000))
        × ((other : String)
            → other ≢ target
            → aggregates.find_unique other a' ≡ aggregates.find_unique other a)
  unfolding recompute_score_aggregate_for_target
  recompute_score_aggregate_for_target-IsBounded now target d a scores =
      let age = score_default_max_report_age_seconds in
      let means = aggregates-IsMean age now (target ∷ []) d scores in
      elim (List-cases
        (compute_candidate_aggregates reports aggregates age age now (target ∷ []) d)) [
          | inl none_left ↦ (
            λ stored found. absurd (
                ground (
                  arith,
                  none_left,
                  found,
                  aggregates.find-delete target target a,
                  beq_refl target,
                )),
            λ other apart. ground (
              arith,
              none_left,
              aggregates.find-delete target other a,
              string_eq.beq_iff target other,
            ),
          )
          | inr (s, rest, some_left) ↦
              let (mean, _) = subst (All (IsMean age now)) some_left means in
              let f = λ (old : Option ScoreAggregate).
                stored_aggregate reports aggregates age target now s in
              (
                λ stored found.
                    let same : stored_aggregate reports aggregates age target now s ≡ stored =
                      some-injective _ _ (
                        ground (
                          arith,
                          some_left,
                          found,
                          aggregates.find-upsert target target f a,
                          beq_refl target,
                        )) in
                    subst
                      (λ (r : ScoreAggregate).
                        (1 ≤ r.report_count)
                        × (r.score_sum ≤ 100 * r.report_count)
                        × (now ≤ r.last_report_at + age * 1000))
                      same mean,
                λ other apart. ground (
                  arith,
                  some_left,
                  aggregates.find-upsert target other f a,
                  string_eq.beq_iff target other,
                ),
              )
        ]
