-- ===== src/Sync/Serve.antt =====
-- src/modules/peer_network/sync/services/table_sync_runner.service.ts: the requests of other
-- servers for rows and for votes. `now` is the reading of the clock for a request.
pub mod Paging
use open_chat_be.Prelude.{
  Bool, List, Map, Option, String, [], contains, if◌then◌else◌, insert, length, lookup, ltb, map,
  max, min, nat_beq, nat_eq, none, some, string_eq, true, ℕ, ◌&&◌, ◌==◌, ◌∷◌,
}
use mathlib.Core.Option
use open_chat_be.Text.{TextOrder}
use open_chat_be.Json.{Value}
use open_chat_be.Sync.Types.{
  SyncTableName, server_node, server_score_report, server_score_aggregate, user, direct_message,
  SyncRowEnvelope,
}
use open_chat_be.Sync.Tables.{
  ServerNode, StoredMessage, TableRow, node_row, report_row, aggregate_row, user_row, message_row,
  extract_primary_key, SyncWorld, to_row_envelope,
}
use open_chat_be.Sync.Database.{RowTable, Queries, Tables, is_after}

pub record SyncFetchRequest : Type 0 where
  pub cursor : Option String
  pub limit : ℕ
  pub run_id : String
  pub table : SyncTableName

pub record SyncFetchResponse : Type 0 where
  pub items : List (SyncRowEnvelope Value)
  pub next_cursor : Option String
  pub run_id : String
  pub table : SyncTableName

pub record RowHash : Type 0 where
  pub canonical_hash : String
  pub primary_key : String

pub record RowVote : Type 0 where
  pub canonical_hash : Option String
  pub primary_key : String

pub record SyncVerifyBatchRequest : Type 0 where
  pub rows : List RowHash
  pub run_id : String
  pub table : SyncTableName

pub record SyncVerifyBatchResponse : Type 0 where
  pub run_id : String
  pub table : SyncTableName
  pub votes : List RowVote

pub record SyncFetchByKeysRequest : Type 0 where
  pub keys : List String
  pub run_id : String
  pub table : SyncTableName

pub record SyncFetchByKeysResponse : Type 0 where
  pub items : List (SyncRowEnvelope Value)
  pub run_id : String
  pub table : SyncTableName

pub record TableCount : Type 0 where
  pub row_count : ℕ
  pub table : SyncTableName

pub record SyncManifestResponse : Type 0 where
  pub generated_at : ℕ
  pub local_peer_id : String
  pub run_id : String
  pub tables : List TableCount

-- `cursor ? { gt: cursor } : {}`
abbrev pub past : TextOrder → Option String → String → Bool
past order none key = true
past order (some cursor) key = if cursor == "" then true else is_after order cursor key

abbrev pub is_current : ℕ → StoredMessage → Bool
is_current now r = ltb now r.message.expires_at

-- the last element, if there is one
abbrev pub last_of {ℓ} : {A : Type ℓ} → List A → Option A
last_of [] = none
last_of (x ∷ []) = some x
last_of (x ∷ y ∷ rest) = last_of (y ∷ rest)

module _ {D : Type 0} (order : TextOrder) (queries : Queries order D) (world : SyncWorld) where
  unfoldable pub create_manifest_response : ℕ → String → String → Tables D → SyncManifestResponse
  create_manifest_response now run_id local_peer_id t = record {
    generated_at = now;
    local_peer_id = local_peer_id;
    run_id = run_id;
    tables =
        record { row_count = queries.server_nodes.count (λ r. true) t.nodes; table = server_node }
        ∷ record {
          row_count = queries.score_reports.count (λ r. true) t.reports;
          table = server_score_report;
        }
        ∷ record {
          row_count = queries.score_aggregates.count (λ r. true) t.aggregates;
          table = server_score_aggregate;
        }
        ∷ record { row_count = queries.users.count (λ r. true) t.people; table = user }
        ∷ record {
          row_count = queries.direct_messages.count (is_current now) t.messages;
          table = direct_message;
        }
        ∷ [];
  }

  -- One query in the order of the key.
  abbrev pub page :
      {R : Type 0} (to_row : R → TableRow)
      → RowTable order D R to_row
      → (R → Bool)
      → Option String
      → ℕ
      → D
      → List TableRow
  page to_row rows test cursor limit d =
      map to_row
        (rows.find_many (λ r. past order cursor (extract_primary_key (to_row r)) && test r) limit d)

  unfoldable pub fetch_table_rows : ℕ → SyncTableName → Option String → ℕ → Tables D → List TableRow
  fetch_table_rows now server_node cursor limit t =
      page node_row queries.server_nodes (λ r. true) cursor limit t.nodes
  fetch_table_rows now server_score_report cursor limit t =
      page report_row queries.score_reports (λ r. true) cursor limit t.reports
  fetch_table_rows now server_score_aggregate cursor limit t =
      page aggregate_row queries.score_aggregates (λ r. true) cursor limit t.aggregates
  fetch_table_rows now user cursor limit t =
      page user_row queries.users (λ r. true) cursor limit t.people
  fetch_table_rows now direct_message cursor limit t =
      page message_row queries.direct_messages (is_current now) cursor limit t.messages

  abbrev among :
      {R : Type 0} (to_row : R → TableRow)
      → RowTable order D R to_row
      → (R → Bool)
      → List String
      → D
      → List TableRow
  among to_row rows test keys d =
      map to_row (rows.find_all (λ r. test r && contains keys (extract_primary_key (to_row r))) d)

  unfoldable pub rows_by_keys : ℕ → SyncTableName → List String → Tables D → List TableRow
  rows_by_keys now server_node keys t = among node_row queries.server_nodes (λ r. true) keys t.nodes
  rows_by_keys now server_score_report keys t =
      among report_row queries.score_reports (λ r. true) keys t.reports
  rows_by_keys now server_score_aggregate keys t =
      among aggregate_row queries.score_aggregates (λ r. true) keys t.aggregates
  rows_by_keys now user keys t = among user_row queries.users (λ r. true) keys t.people
  rows_by_keys now direct_message keys t =
      among message_row queries.direct_messages (is_current now) keys t.messages

  unfoldable pub fetch_rows_by_keys : ℕ → SyncTableName → List String → Tables D → List TableRow
  unfolding rows_by_keys
  fetch_rows_by_keys now table [] t = []
  fetch_rows_by_keys now table (key ∷ keys) t = rows_by_keys now table (key ∷ keys) t

  abbrev pub fetch_limit : ℕ → ℕ
  fetch_limit limit = max 1 (min 1000 limit)

  abbrev pub next_cursor_of : ℕ → List TableRow → Option String
  next_cursor_of limit rows =
      if nat_beq (length rows) limit then Option.map extract_primary_key (last_of rows) else none

  unfoldable pub handle_fetch_request : ℕ → SyncFetchRequest → Tables D → SyncFetchResponse
  handle_fetch_request now input t =
      let limit = fetch_limit input.limit in
      let rows = fetch_table_rows now input.table input.cursor limit t in
      record {
        items = map (to_row_envelope world) rows;
        next_cursor = next_cursor_of limit rows;
        run_id = input.run_id;
        table = input.table;
      }

  -- `new Map(rows.map(…))`: a later row of the same key counts
  unfoldable pub rows_map : List TableRow → Map String TableRow → Map String TableRow
  rows_map [] m = m
  rows_map (row ∷ rows) m = rows_map rows (insert (extract_primary_key row) row m)

  abbrev pub vote_on : Map String TableRow → RowHash → RowVote
  vote_on local row = record {
    canonical_hash =
        Option.map (λ r. (to_row_envelope world r).canonical_hash) (lookup row.primary_key local);
    primary_key = row.primary_key;
  }

  unfoldable pub handle_verify_request :
      ℕ → SyncVerifyBatchRequest → Tables D → SyncVerifyBatchResponse
  handle_verify_request now input t =
      let keys = map (λ (row : RowHash). row.primary_key) input.rows in
      let local = rows_map (fetch_rows_by_keys now input.table keys t) [] in
      record { run_id = input.run_id; table = input.table; votes = map (vote_on local) input.rows }

  unfoldable pub handle_fetch_by_keys_request :
      ℕ → SyncFetchByKeysRequest → Tables D → SyncFetchByKeysResponse
  handle_fetch_by_keys_request now input t = record {
    items = map (to_row_envelope world) (fetch_rows_by_keys now input.table input.keys t);
    run_id = input.run_id;
    table = input.table;
  }
