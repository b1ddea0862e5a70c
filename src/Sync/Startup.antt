-- ===== src/Sync/Startup.antt =====
-- src/modules/peer_network/sync/services/startup_sync.service.ts: the tables are copied from one
-- validator, and the others vote on each row. The answers of the other servers are a parameter:
-- nothing if the request throws. Progress is not logged, and a table has no time limit here.
pub mod Loop
pub mod Agreed
pub mod Turns
pub mod Resolved
pub mod Complete
pub mod Runs
use open_chat_be.Prelude.{
  Bool, List, Map, Option, String, [], false, if◌then◌else◌, insert, lookup, map, nat_eq, none,
  some, string_eq, true, ℕ, ◌++◌, ◌==◌, ◌||◌, ◌∷◌,
}
use mathlib.Core.Option
use open_chat_be.Results.{Result, ok, err, Exception, failure}
use open_chat_be.Text.{TextOrder}
use open_chat_be.Json.{Value}
use open_chat_be.Realtime.Keys.{◌⧺◌}
use open_chat_be.Sync.Types.{
  SyncTableName, server_node, server_score_report, server_score_aggregate, user, direct_message,
  sync_table_order, SyncRowEnvelope,
}
use open_chat_be.Sync.Tables.{SyncWorld}
use open_chat_be.Sync.Database.{Queries, Tables}
use open_chat_be.Sync.Serve.{
  SyncFetchRequest, SyncFetchResponse, SyncVerifyBatchRequest, SyncVerifyBatchResponse,
  SyncFetchByKeysRequest, SyncFetchByKeysResponse, SyncManifestResponse, RowHash, RowVote,
}
use open_chat_be.Sync.Apply.{apply_rows}
use open_chat_be.Sync.Validators.{SyncValidator, discover_validators}
use open_chat_be.Sync.Votes.{ValidatorVoteResult, RowConsensusResult, choose_hashes}

-- What a server answers with.
pub data Answer : Type 0 where
  manifest_response : SyncManifestResponse → Answer
  fetch_response : SyncFetchResponse → Answer
  verify_response : SyncVerifyBatchResponse → Answer
  by_keys_response : SyncFetchByKeysResponse → Answer
  other_answer : Answer

-- `request_peer`, for each protocol; the manifest is asked for in up to three attempts.
pub record StartupSyncRuntime : Type 0 where
  pub connected_peer_ids : List String
  pub local_peer_id : String
  pub ask_manifest : ℕ → String → Option Answer
  pub ask_fetch : String → SyncFetchRequest → Option Answer
  pub ask_verify : String → SyncVerifyBatchRequest → Option Answer
  pub ask_by_keys : String → SyncFetchByKeysRequest → Option Answer

abbrev pub same_table : SyncTableName → SyncTableName → Bool
same_table server_node server_node = true
same_table server_score_report server_score_report = true
same_table server_score_aggregate server_score_aggregate = true
same_table user user = true
same_table direct_message direct_message = true
same_table a b = false

abbrev pub table_name : SyncTableName → String
table_name server_node = "server_node"
table_name server_score_report = "server_score_report"
table_name server_score_aggregate = "server_score_aggregate"
table_name user = "user"
table_name direct_message = "direct_message"

abbrev pub as_manifest : Option Answer → Option SyncManifestResponse
as_manifest (some (manifest_response r)) = some r
as_manifest o = none

abbrev pub as_fetched : SyncTableName → Option Answer → Option SyncFetchResponse
as_fetched table (some (fetch_response r)) = if same_table r.table table then some r else none
as_fetched table o = none

abbrev pub as_verified : SyncTableName → Option Answer → Option SyncVerifyBatchResponse
as_verified table (some (verify_response r)) = if same_table r.table table then some r else none
as_verified table o = none

abbrev pub as_by_keys : SyncTableName → Option Answer → Option SyncFetchByKeysResponse
as_by_keys table (some (by_keys_response r)) = if same_table r.table table then some r else none
as_by_keys table o = none

pub record WeakRow : Type 0 where
  pub enqueued_at : ℕ
  pub primary_key : String
  pub table : SyncTableName

-- Validators that gave no manifest, with the attempt.
pub data ManifestPickResult : Type 0 where
  picked : SyncManifestResponse → SyncValidator → ManifestPickResult
  not_picked : List (String × ℕ) → ManifestPickResult

module _ (runtime : StartupSyncRuntime) where
  -- One attempt: the first validator with a manifest, or those that failed.
  unfoldable pub try_validators : ℕ → List SyncValidator → List (String × ℕ) → ManifestPickResult
  try_validators attempt [] errors = not_picked errors
  try_validators attempt (v ∷ vs) errors =
      elim (as_manifest (runtime.ask_manifest attempt v.peer_id)) [
        | some manifest ↦ picked manifest v
        | none ↦ try_validators attempt vs (errors ++ (v.peer_id, attempt) ∷ [])
      ]

  abbrev pub try_again : ℕ → List SyncValidator → ManifestPickResult → ManifestPickResult
  try_again attempt vs (picked manifest v) = picked manifest v
  try_again attempt vs (not_picked errors) = try_validators attempt vs errors

  unfoldable pub pick_manifest_source_validator : List SyncValidator → ManifestPickResult
  unfolding try_validators
  pick_manifest_source_validator vs = try_again 3 vs (try_again 2 vs (try_validators 1 vs []))

  abbrev pub to_hash : SyncRowEnvelope Value → RowHash
  to_hash row = record { canonical_hash = row.canonical_hash; primary_key = row.primary_key }

  -- `new Map(response.votes.map(…))`
  abbrev pub vote_map : List RowVote → Map String (Option String) → Map String (Option String)
  vote_map [] m = m
  vote_map (vote ∷ votes) m = vote_map votes (insert vote.primary_key vote.canonical_hash m)

  unfoldable pub collect_votes :
      String
      → SyncTableName
      → List (SyncRowEnvelope Value)
      → List SyncValidator
      → List ValidatorVoteResult
  collect_votes run_id table rows [] = []
  collect_votes run_id table rows (v ∷ vs) =
      let later = collect_votes run_id table rows vs in
      elim (as_verified table (
        runtime.ask_verify v.peer_id
          (record { rows = map to_hash rows; run_id = run_id; table = table }))) [
            | none ↦ later
            | some response ↦
                record {
                  peer_id = v.peer_id;
                  votes = vote_map response.votes [];
                  weight = v.weight;
                }
                ∷ later
          ]

  -- the first item of an answer, if it has the hash
  abbrev pub matching : String → Option SyncFetchByKeysResponse → Option (SyncRowEnvelope Value)
  matching expected_hash none = none
  matching expected_hash (some response) = elim response.items [
    | [] ↦ none
    | row ∷ rows ↦ if row.canonical_hash == expected_hash then some row else none
  ]

  unfoldable pub ask_supporters :
      String → SyncTableName → String → String → List String → Option (SyncRowEnvelope Value)
  ask_supporters run_id table key expected_hash [] = none
  ask_supporters run_id table key expected_hash (peer_id ∷ rest) =
      elim (matching expected_hash (
        as_by_keys table (
          runtime.ask_by_keys peer_id
            (record { keys = key ∷ []; run_id = run_id; table = table })))) [
              | some row ↦ some row
              | none ↦ ask_supporters run_id table key expected_hash rest
            ]

  abbrev pub preferred_peer_ids : List String → List SyncValidator → List String
  preferred_peer_ids [] validators = map (λ (v : SyncValidator). v.peer_id) validators
  preferred_peer_ids (peer_id ∷ rest) validators = peer_id ∷ rest

  unfoldable pub fetch_row_from_supporters :
      String
      → SyncTableName
      → String
      → String
      → List String
      → List SyncValidator
      → Option (SyncRowEnvelope Value)
  unfolding ask_supporters
  fetch_row_from_supporters run_id table key expected_hash supporting validators =
      ask_supporters run_id table key expected_hash (preferred_peer_ids supporting validators)

  unfoldable pub enqueue_weak_consensus_row :
      ℕ → SyncTableName → String → Map String WeakRow → Map String WeakRow
  enqueue_weak_consensus_row now table primary_key queue =
      insert (table_name table ⧺ ":" ⧺ primary_key)
        (record { enqueued_at = now; primary_key = primary_key; table = table }) queue

  abbrev pub enqueue_if :
      Bool → ℕ → SyncTableName → String → Map String WeakRow → Map String WeakRow
  enqueue_if test now table primary_key queue =
      if test then enqueue_weak_consensus_row now table primary_key queue else queue

  -- `new Map(source_rows.map(…))`
  unfoldable pub source_map :
      List (SyncRowEnvelope Value)
      → Map String (SyncRowEnvelope Value)
      → Map String (SyncRowEnvelope Value)
  source_map [] m = m
  source_map (row ∷ rows) m = source_map rows (insert row.primary_key row m)

  -- The row that a vote comes to, and whether it is queued as weak.
  unfoldable pub resolve_row :
      String
      → SyncTableName
      → RowConsensusResult
      → List SyncValidator
      → SyncRowEnvelope Value
      → SyncRowEnvelope Value × Bool
  resolve_row run_id table consensus validators source_row =
      if consensus.chosen_hash == "" || consensus.chosen_hash == source_row.canonical_hash
      then (source_row, consensus.weak_consensus)
      else elim (fetch_row_from_supporters run_id table consensus.primary_key consensus.chosen_hash
          consensus.supporting_peer_ids validators) [
            | none ↦ (source_row, true)
            | some row ↦ (row, consensus.weak_consensus)
          ]

  unfoldable pub resolve_rows_from_consensus :
      ℕ
      → String
      → SyncTableName
      → Map String (SyncRowEnvelope Value)
      → List RowConsensusResult
      → List SyncValidator
      → Map String WeakRow
      → List (SyncRowEnvelope Value) × Map String WeakRow
  unfolding resolve_row
  resolve_rows_from_consensus now run_id table sources [] validators queue = ([], queue)
  resolve_rows_from_consensus now run_id table sources (c ∷ cs) validators queue =
      elim (lookup c.primary_key sources) [
        | none ↦ resolve_rows_from_consensus now run_id table sources cs validators queue
        | some source_row ↦
            let (row, weak) = resolve_row run_id table c validators source_row in
            let (rows, queue') =
              resolve_rows_from_consensus now run_id table sources cs validators
                (enqueue_if weak now table c.primary_key queue) in
            (row ∷ rows, queue')
      ]
