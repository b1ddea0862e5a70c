-- ===== src/PeerNetwork/Examples/Reports.antt =====
-- Reports of other servers, on tables in memory.
use open_chat_be.Text.{count_chars}
use open_chat_be.Prelude.{
  Bool, List, Map, Option, String, [], arith, contains, erase, false, has, insert, keep, lookup,
  lookup-erase, lookup-insert, nat_eq, not, place, refl, some, sort, sort-IsSortedBy, sort-perm,
  string_eq, true, ℕ, ◌*◌, ◌+◌, ◌==◌, ◌∷◌, ◌≡◌, ◌≢◌, ◌≤◌, ◌⊎◌,
}
use mathlib.Core.List.Perm
use mathlib.Core.Option
use open_chat_be.Text.{trim, with_hex_prefix, count_chars}
use open_chat_be.Results.{Result, ok}
use open_chat_be.Sync.Tables.{ServerScoreReport}
use open_chat_be.Sync.Ordered.{keep-weaken}
use open_chat_be.Sync.Examples.Memory.{Store, by_length, queries, read_date}
use open_chat_be.Sync.Examples.Copies.{here}
use open_chat_be.PeerNetwork.Reports.{
  ReportTable, ServerScoreReportPayload, ScoreWorld, newer_first, first_of,
  verify_server_score_signature,
}
use open_chat_be.PeerNetwork.Reports.Aggregates.{
  sum_reports, latest_report_map, compute_candidate_aggregates, AggregateTable, ScoreAggregate,
  recompute_score_aggregate_for_target,
}
use open_chat_be.PeerNetwork.Reports.Aggregates.Bounds.{
  recompute_score_aggregate_for_target-IsBounded,
}
use open_chat_be.PeerNetwork.Reports.Incoming.{
  ScoreTables, ReportOutcome, rejected, persisted, handle_incoming_server_score_report,
  persist_server_score_report, check_report, touch_peer_node,
}
use open_chat_be.PeerNetwork.Reports.Incoming.Accepted.{
  IsTrusted, handle_incoming_server_score_report-IsTrusted,
}

newer_first_total : (a b : ServerScoreReport) → newer_first a b ≡ false → newer_first b a ≡ true
newer_first_total a b h = ground arith

newer_first_trans :
    (a b c : ServerScoreReport)
    → newer_first a b ≡ true
    → newer_first b c ≡ true
    → newer_first a c ≡ true
newer_first_trans a b c h k = ground arith

none_kept :
    (key : ServerScoreReport → Bool) (rs : List ServerScoreReport)
    → keep key (keep (λ r. not (key r)) rs) ≡ []
none_kept key [] = refl
none_kept key (r ∷ rs) = ground (arith, none_kept key rs)

abbrev put_report :
    (ServerScoreReport → Bool)
    → (Option ServerScoreReport → ServerScoreReport)
    → List ServerScoreReport
    → List ServerScoreReport
put_report key f d = f (first_of (keep key d)) ∷ keep (λ r. not (key r)) d

put_report-same :
    (key : ServerScoreReport → Bool) (f : Option ServerScoreReport → ServerScoreReport)
    (d : List ServerScoreReport)
    → key (f (first_of (keep key d))) ≡ true
    → keep key (put_report key f d) ≡ f (first_of (keep key d)) ∷ []
put_report-same key f d h = ground (arith, h, none_kept key d)

put_report-others :
    (key : ServerScoreReport → Bool) (f : Option ServerScoreReport → ServerScoreReport)
    (d : List ServerScoreReport)
    → key (f (first_of (keep key d))) ≡ true
    → keep (λ r. not (key r)) (put_report key f d) ≡ keep (λ r. not (key r)) d
put_report-others key f d h =
    ground (arith, h, keep-weaken (λ r. not (key r)) (λ r. not (key r)) d (λ r k. k))

-- Reports in the order of writing.
unfoldable report_table : ReportTable (List ServerScoreReport)
unfolding sort
report_table = record {
  rows = λ d. d;
  find_many = λ test d. sort newer_first (keep test d);
  upsert = put_report;
  delete_many = λ test d. keep (λ r. not (test r)) d;
  find_many-rows = λ test d. Perm.symm (sort-perm newer_first (keep test d));
  find_many-IsSortedBy =
      λ test d. sort-IsSortedBy newer_first newer_first_total newer_first_trans (keep test d);
  rows-delete_many = λ test d. refl;
  rows-upsert = put_report-same;
  others-upsert = put_report-others;
}

unfoldable mean_table : AggregateTable (Map String ScoreAggregate)
mean_table = record {
  find_unique = lookup;
  upsert = λ key f d. insert key (f (lookup key d)) d;
  delete = erase;
  find-upsert = λ key other f d. lookup-insert key other (f (lookup key d)) d;
  find-delete = lookup-erase;
}

-- The dates are the lengths of texts, and the signature "0x1" is right.
abbrev score_world : ScoreWorld
score_world = record {
  to_lower_case = λ s. s;
  parse_date = read_date;
  create_server_score_payload_hash = λ p. "0xa";
  verify = λ signature hash key. ok (signature == "0x1");
}

abbrev on_p2 : ℕ → String → String → ServerScoreReportPayload
on_p2 score observed_at signature = record {
  expires_at = "mmmmmmmmmm";
  observed_at = observed_at;
  payload_hash = "0xa";
  reporter_peer_id = "p1";
  reporter_server_public_key = "0xb";
  score = score;
  signature = signature;
  target_peer_id = "p2";
}

abbrev report_of : String → ℕ → ℕ → ServerScoreReport
report_of reporter score at = record {
  created_at = at;
  expires_at = 9;
  id = reporter;
  observed_at = at;
  payload_hash = "0xa";
  reporter_peer_id = reporter;
  reporter_server_public_key = "0xb";
  score = score;
  signature = "0x1";
  target_peer_id = "p2";
  updated_at = at;
}

abbrev known : List ServerScoreReport
known = report_of "p1" 30 2 ∷ report_of "p3" 90 3 ∷ []

abbrev score_tables : ScoreTables (List ServerScoreReport) (Map String ScoreAggregate) Store
score_tables = record { aggregates = []; nodes = here; reports = known }

recompute_score_aggregate_for_target-IsBounded_example :
    let a' = recompute_score_aggregate_for_target report_table mean_table 1 4 "p2" known [] in
    ((stored : ScoreAggregate)
      → mean_table.find_unique "p2" a' ≡ some stored
      → (1 ≤ stored.report_count)
        × (stored.score_sum ≤ 100 * stored.report_count)
        × (4 ≤ stored.last_report_at + 1 * 1000))
    × ((other : String)
        → other ≢ "p2"
        → mean_table.find_unique other a' ≡ mean_table.find_unique other [])
unfolding report_table
recompute_score_aggregate_for_target-IsBounded_example =
    recompute_score_aggregate_for_target-IsBounded report_table mean_table 1 4 "p2" known []
      (omega arith, (omega arith, tt))

-- The two reports give a mean of 60.
known_mean :
    Option.map {B = ℕ × ℕ}
      (λ (a : ScoreAggregate). (a.score_sum, a.report_count))
      (lookup "p2" (recompute_score_aggregate_for_target report_table mean_table 1 4 "p2" known []))
    ≡ some (120, 2)
unfolding recompute_score_aggregate_for_target compute_candidate_aggregates latest_report_map
    sum_reports report_table mean_table sort place lookup insert has contains
known_mean = refl

abbrev all_connected : String → Bool
all_connected peer = true

abbrev handled :
    Result (ReportOutcome × ScoreTables (List ServerScoreReport) (Map String ScoreAggregate) Store)
handled =
    handle_incoming_server_score_report by_length score_world report_table mean_table
      queries.server_nodes 1 all_connected 4 "n" (on_p2 50 "mmmm" "0x1") "p3" score_tables

abbrev stored : ScoreTables (List ServerScoreReport) (Map String ScoreAggregate) Store
stored =
    let (outcome, d, a) =
      persist_server_score_report by_length score_world report_table mean_table queries.server_nodes
        1 all_connected 4 "n" (on_p2 50 "mmmm" "0x1") 3 9 known [] in
    record {
      aggregates = a;
      nodes =
          touch_peer_node by_length score_world report_table mean_table queries.server_nodes 1
            all_connected 4 "p1" true 3 "0xb" here;
      reports = d;
    }

kept : handled ≡ ok (persisted, stored)
unfolding handle_incoming_server_score_report check_report verify_server_score_signature
    persist_server_score_report report_table sort place count_chars trim with_hex_prefix lookup
    queries open_chat_be.Sync.Examples.Memory.table_in
kept = refl

handle_incoming_server_score_report-IsTrusted_example :
    ((reason : String) × (persisted ≡ rejected reason) × (stored ≡ score_tables))
    ⊎ ((all_connected "p3" ≡ true)
        × IsTrusted by_length score_world report_table mean_table queries.server_nodes 1
            all_connected 4
            (on_p2 50 "mmmm" "0x1")
            here)
handle_incoming_server_score_report-IsTrusted_example =
    handle_incoming_server_score_report-IsTrusted by_length score_world report_table mean_table
      queries.server_nodes 1 all_connected 4 "n" (on_p2 50 "mmmm" "0x1") "p3" score_tables stored
      persisted kept
