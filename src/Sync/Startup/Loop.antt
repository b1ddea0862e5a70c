-- ===== src/Sync/Startup/Loop.antt =====
-- src/modules/peer_network/sync/services/startup_sync.service.ts: the loop over the pages of a
-- table, on fuel, and a whole run.
use open_chat_be.Prelude.{
  Bool, List, Map, Option, String, [], false, if◌then◌else◌, nat_eq, none, not, some, string_eq,
  suc, true, zero, ℕ, ◌==◌, ◌||◌, ◌∷◌,
}
use open_chat_be.Results.{Result, ok, err, Exception, failure}
use open_chat_be.Text.{TextOrder}
use open_chat_be.Json.{Value}
use open_chat_be.Sync.Types.{SyncTableName, sync_table_order, SyncRowEnvelope}
use open_chat_be.Sync.Tables.{SyncWorld}
use open_chat_be.Sync.Database.{Queries, Tables}
use open_chat_be.Sync.Apply.{apply_rows}
use open_chat_be.Sync.Validators.{SyncValidator, discover_validators}
use open_chat_be.Sync.Votes.{choose_hashes}
use open_chat_be.Sync.Startup.{
  StartupSyncRuntime, as_fetched, WeakRow, picked, not_picked, pick_manifest_source_validator,
  collect_votes, source_map, resolve_rows_from_consensus,
}

pub record SyncState (D : Type 0) : Type 0 where
  pub tables : Tables D
  pub weak_consensus_queue : Map String WeakRow

-- How the loop ends; `out_of_fuel` stands for a loop that goes on.
pub data Ending : Type 0 where
  finished : Ending
  thrown : Exception → Ending
  out_of_fuel : Ending

pub data RunStatus : Type 0 where
  skipped complete partial : RunStatus
  failed : List (String × ℕ) → RunStatus

pub record SyncConfig : Type 0 where
  pub sync_batch_size : ℕ
  pub sync_validator_target : ℕ

module _ {D : Type 0} (order local_compare : TextOrder) (queries : Queries order D)
    (world : SyncWorld) (config : SyncConfig) (runtime : StartupSyncRuntime) where
  -- The votes on a page, and the rows that they come to.
  unfoldable pub resolve_page :
      ℕ
      → String
      → SyncTableName
      → List SyncValidator
      → List (SyncRowEnvelope Value)
      → Map String WeakRow
      → List (SyncRowEnvelope Value) × Map String WeakRow
  resolve_page now run_id table validators items queue =
      let votes = collect_votes runtime run_id table items validators in
      resolve_rows_from_consensus runtime now run_id table (source_map runtime items [])
        (choose_hashes order items votes) validators queue

  unfoldable pub sync_page :
      ℕ
      → String
      → SyncTableName
      → List SyncValidator
      → List (SyncRowEnvelope Value)
      → SyncState D
      → Result (Unit {0}) × SyncState D
  sync_page now run_id table validators items s =
      let (rows, queue) = resolve_page now run_id table validators items s.weak_consensus_queue in
      let (result, t) = apply_rows world order queries now rows s.tables in
      (result, record { tables = t; weak_consensus_queue = queue })

  abbrev pub is_last_cursor : Option String → Bool
  is_last_cursor none = true
  is_last_cursor (some cursor) = cursor == ""

  -- A page that cannot be written ends the loop, and so does an answer without a cursor.
  abbrev pub after_page :
      Option String
      → Result (Unit {0}) × SyncState D
      → (SyncState D → Ending × SyncState D)
      → Ending × SyncState D
  after_page cursor (err e, s) next_page = (thrown e, s)
  after_page cursor (ok u, s) next_page = elim (is_last_cursor cursor) [
    | true ↦ (finished, s)
    | false ↦ next_page s
  ]

  unfoldable pub sync_table :
      ℕ
      → ℕ
      → String
      → String
      → SyncTableName
      → List SyncValidator
      → Option String
      → SyncState D
      → Ending × SyncState D
  sync_table zero now run_id source table validators cursor s = (out_of_fuel, s)
  sync_table (suc fuel) now run_id source table validators cursor s =
      elim (as_fetched table (
        runtime.ask_fetch source (record {
          cursor = cursor;
          limit = config.sync_batch_size;
          run_id = run_id;
          table = table;
        }))) [
          | none ↦ (thrown (failure "Invalid sync.fetch response"), s)
          | some response ↦ elim response.items [
            | [] ↦ (finished, s)
            | row ∷ rows ↦
                after_page response.next_cursor
                  (sync_page now run_id table validators (row ∷ rows) s)
                  (sync_table fuel now run_id source table validators response.next_cursor)
          ]
        ]

  abbrev pub is_finished : Ending → Bool
  is_finished finished = true
  is_finished e = false

  -- Whether a table failed, which does not end the loop over the tables.
  unfoldable pub sync_tables :
      ℕ
      → ℕ
      → String
      → String
      → List SyncValidator
      → List SyncTableName
      → SyncState D
      → Bool × SyncState D
  sync_tables fuel now run_id source validators [] s = (false, s)
  sync_tables fuel now run_id source validators (table ∷ tables) s =
      let (ending, s') = sync_table fuel now run_id source table validators none s in
      let (failed_later, s'') = sync_tables fuel now run_id source validators tables s' in
      (not (is_finished ending) || failed_later, s'')

  unfoldable pub execute_sync : ℕ → ℕ → String → SyncState D → RunStatus × SyncState D
  execute_sync fuel now run_id s =
      let validators =
        discover_validators order local_compare queries runtime.connected_peer_ids
          runtime.local_peer_id config.sync_validator_target s.tables in
      elim validators [
        | [] ↦ (skipped, s)
        | first ∷ rest ↦ elim (pick_manifest_source_validator runtime (first ∷ rest)) [
          | not_picked errors ↦ (failed errors, s)
          | picked manifest v ↦
              let (partial_failure, s') =
                sync_tables fuel now run_id v.peer_id (first ∷ rest) sync_table_order s in
              (if partial_failure then partial else complete, s')
        ]
      ]
