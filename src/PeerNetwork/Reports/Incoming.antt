-- ===== src/PeerNetwork/Reports/Incoming.antt =====
-- The reports that other servers send: `handle_incoming_server_score_report`,
-- `persist_server_score_report`, `touch_peer_node` and the loop over a message of reports of
-- src/modules/peer_network/peer_network.service.ts.
pub mod Latest
pub mod Accepted
use open_chat_be.Prelude.{
  Bool, Option, String, false, if◌then◌else◌, leb, ltb, nat_beq, nat_eq, none, not, some, string_eq,
  suc, true, values, ℕ, ◌&&◌, ◌*◌, ◌+◌, ◌==◌, ◌||◌,
}
use open_chat_be.Json.{Value, arr, null, Items, cons, nil}
use open_chat_be.Results.{Result, ok, err}
use open_chat_be.Text.{TextOrder, is_empty}
use open_chat_be.Sync.Tables.{ServerNode, ServerScoreReport, node_row}
use open_chat_be.Sync.Database.{RowTable}
use open_chat_be.PeerNetwork.Reports.{
  ReportTable, ServerScoreReportPayload, ScoreWorld, validate_server_score_report_payload,
  verify_server_score_signature, normalize_hex, valid, invalid, first_of,
}
use open_chat_be.PeerNetwork.Reports.Aggregates.{
  AggregateTable, recompute_score_aggregate_for_target,
}

-- What the trace of an event says of a report.
pub data ReportOutcome : Type 0 where
  rejected : String → ReportOutcome
  older persisted : ReportOutcome

-- A report that is not kept, or its two dates.
pub data CheckedReport : Type 0 where
  refused : String → CheckedReport
  passed : ℕ → ℕ → CheckedReport

-- The tables that a report changes.
pub record ScoreTables (D A N : Type 0) : Type 0 where
  pub aggregates : A
  pub nodes : N
  pub reports : D

module _ {D A N : Type 0} (order : TextOrder) (world : ScoreWorld) (reports : ReportTable D)
    (aggregates : AggregateTable A) (nodes : RowTable order N ServerNode node_row)
    (score_default_max_report_age_seconds : ℕ) (is_peer_directly_connected : String → Bool) where
  abbrev pub is_of_pair : ServerScoreReportPayload → ServerScoreReport → Bool
  is_of_pair report r =
      r.reporter_peer_id == report.reporter_peer_id && r.target_peer_id == report.target_peer_id

  abbrev pub is_live_of_pair : ℕ → ServerScoreReportPayload → ServerScoreReport → Bool
  is_live_of_pair now report r = ltb now r.expires_at && is_of_pair report r

  abbrev pub is_same : ServerScoreReportPayload → ℕ → ServerScoreReport → Bool
  is_same report observed_at r = nat_beq r.observed_at observed_at && is_of_pair report r

  -- A row that is there keeps its identifier and its date of creation.
  abbrev pub written_report :
      ℕ → String → ServerScoreReportPayload → ℕ → ℕ → Option ServerScoreReport → ServerScoreReport
  written_report now new_id report observed_at expires_at none = record {
    created_at = now;
    expires_at = expires_at;
    id = new_id;
    observed_at = observed_at;
    payload_hash = report.payload_hash;
    reporter_peer_id = report.reporter_peer_id;
    reporter_server_public_key = report.reporter_server_public_key;
    score = report.score;
    signature = report.signature;
    target_peer_id = report.target_peer_id;
    updated_at = now;
  }
  written_report now new_id report observed_at expires_at (some old) = record {
    created_at = old.created_at;
    expires_at = expires_at;
    id = old.id;
    observed_at = observed_at;
    payload_hash = report.payload_hash;
    reporter_peer_id = report.reporter_peer_id;
    reporter_server_public_key = report.reporter_server_public_key;
    score = report.score;
    signature = report.signature;
    target_peer_id = report.target_peer_id;
    updated_at = now;
  }

  abbrev pub is_newer_than : ℕ → Option ServerScoreReport → Bool
  is_newer_than observed_at none = false
  is_newer_than observed_at (some latest) = ltb observed_at latest.observed_at

  -- `findFirst` in the order of `find_many`
  abbrev pub latest_report : ℕ → ServerScoreReportPayload → D → Option ServerScoreReport
  latest_report now report d = first_of (reports.find_many (is_live_of_pair now report) d)

  abbrev pub stored_reports : ℕ → String → ServerScoreReportPayload → ℕ → ℕ → D → D
  stored_reports now new_id report observed_at expires_at d =
      reports.delete_many
        (λ r. ltb now r.expires_at && ltb r.observed_at observed_at && is_of_pair report r)
        (reports.upsert (is_same report observed_at)
          (written_report now new_id report observed_at expires_at) d)

  unfoldable pub persist_server_score_report :
      ℕ → String → ServerScoreReportPayload → ℕ → ℕ → D → A → ReportOutcome × D × A
  persist_server_score_report now new_id report observed_at expires_at d a =
      if is_newer_than observed_at (latest_report now report d)
      then (older, d, a)
      else let d' = stored_reports now new_id report observed_at expires_at d in
        (
          persisted,
          d',
          recompute_score_aggregate_for_target reports aggregates
              score_default_max_report_age_seconds now report.target_peer_id d' a,
        )

  abbrev pub touched_node : ℕ → String → Bool → ℕ → String → Option ServerNode → ServerNode
  touched_node now peer_id is_active last_announce_at server_public_key none = record {
    created_at = now;
    is_active = is_active;
    last_announce_at = some last_announce_at;
    last_seen_at = now;
    listen_addresses = null;
    peer_id = peer_id;
    server_public_key = some server_public_key;
    updated_at = now;
  }
  touched_node now peer_id is_active last_announce_at server_public_key (some old) = record old {
    is_active = is_active;
    last_announce_at = some last_announce_at;
    last_seen_at = now;
    server_public_key = some server_public_key;
    updated_at = now;
  }

  -- With the three options that the handler of reports gives.
  unfoldable pub touch_peer_node : ℕ → String → Bool → ℕ → String → N → N
  touch_peer_node now peer_id is_active last_announce_at server_public_key n =
      if is_empty peer_id || peer_id == "unknown_peer"
      then n
      else nodes.upsert peer_id
          (touched_node now peer_id is_active last_announce_at server_public_key) n

  -- A key that is known and not empty.
  abbrev known_key : Option ServerNode → Option String
  known_key none = none
  known_key (some node) = elim node.server_public_key [
    | none ↦ none
    | some key ↦ if is_empty key then none else some key
  ]

  abbrev pub is_other_key : ServerScoreReportPayload → Option ServerNode → Bool
  is_other_key report node = elim (known_key node) [
    | none ↦ false
    | some key ↦
        not (normalize_hex world key == normalize_hex world report.reporter_server_public_key)
  ]

  abbrev keep_report :
      ℕ
      → String
      → ServerScoreReportPayload
      → ℕ
      → ℕ
      → ScoreTables D A N
      → ReportOutcome × ScoreTables D A N
  keep_report now new_id report observed_at expires_at t =
      let (outcome, d, a) =
        persist_server_score_report now new_id report observed_at expires_at t.reports
          t.aggregates in
      (
        outcome,
        record {
          aggregates = a;
          nodes =
              touch_peer_node now report.reporter_peer_id
                (is_peer_directly_connected report.reporter_peer_id) observed_at
                report.reporter_server_public_key t.nodes;
          reports = d;
        },
      )

  -- Dates that are read, in the bounds of the clock, and a key that is no other than the known one.
  unfoldable pub check_report :
      ℕ → ServerScoreReportPayload → N → Option ℕ → Option ℕ → Result CheckedReport
  check_report now report n none expires =
      ok (refused "Score gossip report contains invalid timestamps.")
  check_report now report n (some observed_at) none =
      ok (refused "Score gossip report contains invalid timestamps.")
  check_report now report n (some observed_at) (some expires_at) =
      if leb expires_at now
      then ok (refused "Score gossip report is already expired.")
      else if ltb (observed_at + score_default_max_report_age_seconds * 1000) now
      then ok (refused "Score gossip report is stale.")
      else if is_other_key report (nodes.find_unique report.reporter_peer_id n)
      then ok (refused "Score gossip reporter public key does not match known reporter identity.")
      else elim (verify_server_score_signature world report) [
        | err e ↦ err e
        | ok false ↦ ok (refused "Score gossip signature verification failed.")
        | ok true ↦ ok (passed observed_at expires_at)
      ]

  unfoldable pub handle_incoming_server_score_report :
      ℕ
      → String
      → ServerScoreReportPayload
      → String
      → ScoreTables D A N
      → Result (ReportOutcome × ScoreTables D A N)
  handle_incoming_server_score_report now new_id report sender_peer_id t =
      if not (is_peer_directly_connected sender_peer_id)
      then ok (rejected "Score gossip sender is not currently a direct peer.", t)
      else elim (check_report now report t.nodes (world.parse_date report.observed_at)
          (world.parse_date report.expires_at)) [
            | err e ↦ err e
            | ok (refused reason) ↦ ok (rejected reason, t)
            | ok (passed observed_at expires_at) ↦
                ok (keep_report now new_id report observed_at expires_at t)
          ]

  abbrev handle_value :
      ℕ → String → Value → String → ScoreTables D A N → Result (ReportOutcome × ScoreTables D A N)
  handle_value now new_id value sender_peer_id t =
      elim (validate_server_score_report_payload world value) [
        | invalid error ↦ ok (rejected error, t)
        | valid report ↦ handle_incoming_server_score_report now new_id report sender_peer_id t
      ]

  -- The reports of a message, one after another; an exception leaves the loop, with what was done.
  -- `new_id` gives the identifiers of new rows.
  unfoldable pub handle_reports :
      ℕ → (ℕ → String) → Items → String → ScoreTables D A N → Result (Unit {0}) × ScoreTables D A N
  handle_reports now new_id nil sender_peer_id t = (ok tt, t)
  handle_reports now new_id (cons value values) sender_peer_id t =
      elim (handle_value now (new_id 0) value sender_peer_id t) [
        | err e ↦ (err e, t)
        | ok (outcome, t') ↦ handle_reports now (λ k. new_id (suc k)) values sender_peer_id t'
      ]

  -- A message that is no list is one report.
  unfoldable pub handle_score_gossip :
      ℕ → (ℕ → String) → Value → String → ScoreTables D A N → Result (Unit {0}) × ScoreTables D A N
  handle_score_gossip now new_id (arr values) sender_peer_id t =
      handle_reports now new_id values sender_peer_id t
  handle_score_gossip now new_id value sender_peer_id t =
      handle_reports now new_id (cons value nil) sender_peer_id t
