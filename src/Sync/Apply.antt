-- ===== src/Sync/Apply.antt =====
-- src/modules/peer_network/sync/services/table_sync_runner.service.ts: writing the rows of another
-- server. `now` is the clock of the database, which dates each row that it writes
-- (`@default(now())` and `@updatedAt` in prisma/schema.prisma). An invalid date makes the query throw.
pub mod Latest
pub mod Received
pub mod RoundTrip
pub mod Many
use open_chat_be.Prelude.{
  Bool, List, Option, String, [], false, if◌then◌else◌, ltb, nat_beq, nat_eq, none, not, some,
  string_eq, true, ℕ, ◌==◌, ◌∷◌,
}
use open_chat_be.Results.{Result, ok, err, failure, ◌>>=◌}
use open_chat_be.Text.{TextOrder}
use open_chat_be.Json.{
  fraction, Value, text, obj, arr, num, bool, null, undefined, get_field, is_array,
}
use open_chat_be.DirectMessages.Types.{DirectMessage}
use open_chat_be.Sync.Types.{
  SyncTableName, server_node, server_score_report, server_score_aggregate, user, direct_message,
  SyncRowEnvelope,
}
use open_chat_be.Sync.Tables.{
  Mean, ServerNode, ServerScoreReport, ServerScoreAggregate, User, StoredMessage, TableRow,
  node_row, report_row, aggregate_row, user_row, message_row, changed_at, SyncWorld,
}
use open_chat_be.Sync.Database.{unique_failure, is_taken, RowTable, Queries, Tables}

-- `Boolean(v)`
abbrev pub truthy : Value → Bool
truthy (obj fs) = true
truthy (arr vs) = true
truthy (text s) = not (s == "")
truthy (num n) = not (nat_beq n 0)
truthy (fraction a b) = not (nat_beq a 0)
truthy (bool b) = b
truthy undefined = false
truthy null = false

-- The columns that a query gives a value; `created_at` and `updated_at` are the database's.
abbrev pub kept_date : {R : Type 0} → (R → ℕ) → ℕ → Option R → ℕ
kept_date created_at now none = now
kept_date created_at now (some old) = created_at old

-- A JSON column: `undefined` leaves it, and is NULL in a new row.
abbrev pub json_column : {R : Type 0} → (R → Value) → Value → Option R → Value
json_column column undefined none = null
json_column column undefined (some old) = column old
json_column column v old = v

module _ (world : SyncWorld) where
  abbrev pub to_text : Value → String
  to_text (text s) = s
  to_text (bool b) = if b then "true" else "false"
  to_text undefined = "undefined"
  to_text null = "null"
  to_text v = world.text_of v

  abbrev pub to_number : Value → ℕ
  to_number (num n) = n
  to_number v = world.number_of v

  -- `Number(v)`, where a fraction may come
  abbrev pub to_mean : Value → Mean
  to_mean (fraction a b) = record { numerator = a; denominator = b }
  to_mean v = record { numerator = to_number v; denominator = 1 }

  -- `v ? String(v) : null`
  abbrev pub text_or_null : Value → Option String
  text_or_null v = if truthy v then some (to_text v) else none

  abbrev pub valid_date : Option ℕ → Result ℕ
  valid_date none = err (failure "Invalid Date")
  valid_date (some at) = ok at

  abbrev pub to_date : Value → Result ℕ
  to_date v = valid_date (world.parse_date (to_text v))

  abbrev pub some_date : Result ℕ → Result (Option ℕ)
  some_date (err e) = err e
  some_date (ok at) = ok (some at)

  -- `v ? new Date(String(v)) : null`
  abbrev pub date_or_null : Value → Result (Option ℕ)
  date_or_null v = if truthy v then some_date (to_date v) else ok none

  abbrev pub array_or_undefined : Value → Value
  array_or_undefined v = if is_array v then v else undefined

  -- The row under the key is newer than the one that comes.
  abbrev pub is_newer : Option ℕ → String → Bool
  is_newer none updated_at = false
  is_newer (some at) updated_at = elim (world.parse_date updated_at) [
    | none ↦ false
    | some incoming ↦ ltb incoming at
  ]

  abbrev date_under : {R : Type 0} → (R → TableRow) → Option R → Option ℕ
  date_under to_row none = none
  date_under to_row (some r) = some (changed_at (to_row r))

  -- What each table makes of a row.
  abbrev pub built_node : ℕ → String → Value → Option ℕ → ℕ → Option ServerNode → ServerNode
  built_node now key payload announced seen old = record {
    created_at = kept_date (λ (r : ServerNode). r.created_at) now old;
    is_active = truthy (get_field "is_active" payload);
    last_announce_at = announced;
    last_seen_at = seen;
    listen_addresses =
        json_column (λ (r : ServerNode). r.listen_addresses)
          (array_or_undefined (get_field "listen_addresses" payload)) old;
    peer_id = key;
    server_public_key = text_or_null (get_field "server_public_key" payload);
    updated_at = now;
  }

  unfoldable pub server_node_of : ℕ → String → Value → Result (Option ServerNode → ServerNode)
  server_node_of now key payload = do
    announced ← date_or_null (get_field "last_announce_at" payload)
    seen ← to_date (get_field "last_seen_at" payload)
    ok (built_node now key payload announced seen)

  abbrev pub built_report :
      ℕ → String → Value → ℕ → ℕ → Option ServerScoreReport → ServerScoreReport
  built_report now key payload expires observed old = record {
    created_at = kept_date (λ (r : ServerScoreReport). r.created_at) now old;
    expires_at = expires;
    id = key;
    observed_at = observed;
    payload_hash = to_text (get_field "payload_hash" payload);
    reporter_peer_id = to_text (get_field "reporter_peer_id" payload);
    reporter_server_public_key = to_text (get_field "reporter_server_public_key" payload);
    score = to_number (get_field "score" payload);
    signature = to_text (get_field "signature" payload);
    target_peer_id = to_text (get_field "target_peer_id" payload);
    updated_at = now;
  }

  unfoldable pub score_report_of :
      ℕ → String → Value → Result (Option ServerScoreReport → ServerScoreReport)
  score_report_of now key payload = do
    expires ← to_date (get_field "expires_at" payload)
    observed ← to_date (get_field "observed_at" payload)
    ok (built_report now key payload expires observed)

  abbrev pub built_aggregate :
      String → Value → ℕ → ℕ → Option ServerScoreAggregate → ServerScoreAggregate
  built_aggregate key payload last updated old = record {
    last_report_at = last;
    mean_score = to_mean (get_field "mean_score" payload);
    report_count = to_number (get_field "report_count" payload);
    target_peer_id = key;
    updated_at = updated;
  }

  unfoldable pub score_aggregate_of :
      String → Value → Result (Option ServerScoreAggregate → ServerScoreAggregate)
  score_aggregate_of key payload = do
    last ← to_date (get_field "last_report_at" payload)
    updated ← to_date (get_field "updated_at" payload)
    ok (built_aggregate key payload last updated)

  unfoldable pub synced_user : ℕ → String → Value → Option User → User
  synced_user now key payload old = record {
    created_at = kept_date (λ (r : User). r.created_at) now old;
    email = text_or_null (get_field "email" payload);
    name = text_or_null (get_field "name" payload);
    phone = text_or_null (get_field "phone" payload);
    public_key = key;
    quote = text_or_null (get_field "quote" payload);
    updated_at = now;
    username = text_or_null (get_field "username" payload);
    verfiication_id = text_or_null (get_field "verfiication_id" payload);
    x25519_public_key = text_or_null (get_field "x25519_public_key" payload);
  }

  abbrev pub built_message : ℕ → String → Value → ℕ → ℕ → Option StoredMessage → StoredMessage
  built_message now key payload expires sent old = record {
    created_at = kept_date (λ (r : StoredMessage). r.created_at) now old;
    message = record {
      algorithm = to_text (get_field "algorithm" payload);
      expires_at = expires;
      id = key;
      is_replica_copy = truthy (get_field "is_replica_copy" payload);
      message = to_text (get_field "message" payload);
      message_hash = to_text (get_field "message_hash" payload);
      origin_server_peer_id = text_or_null (get_field "origin_server_peer_id" payload);
      recipient_public_key = to_text (get_field "recipient_public_key" payload);
      replica_peer_ids =
          json_column (λ (r : StoredMessage). r.message.replica_peer_ids)
            (array_or_undefined (get_field "replica_peer_ids" payload)) old;
      send_time = sent;
      sender_public_key = to_text (get_field "sender_public_key" payload);
      sender_signature = to_text (get_field "sender_signature" payload);
      sender_x25519_public_key = to_text (get_field "sender_x25519_public_key" payload);
    };
  }

  unfoldable pub direct_message_of :
      ℕ → String → Value → Result (Option StoredMessage → StoredMessage)
  direct_message_of now key payload = do
    expires ← to_date (get_field "expires_at" payload)
    sent ← to_date (get_field "send_time" payload)
    ok (built_message now key payload expires sent)

  module _ {D : Type 0} (order : TextOrder) (queries : Queries order D) where
    -- `upsert`, which fails if another row has a unique column of the new one.
    abbrev pub written :
        {R : Type 0} {to_row : R → TableRow}
        → RowTable order D R to_row
        → String
        → (Option R → R)
        → D
        → Result D
    written {R} {to_row} rows key f d =
        if is_taken to_row key (f (rows.find_unique key d)) (rows.rows d)
        then err unique_failure
        else ok (rows.upsert key f d)

    -- `findUnique`, the comparison, and `upsert`
    unfoldable pub put :
        {R : Type 0} (to_row : R → TableRow)
        → RowTable order D R to_row
        → SyncRowEnvelope Value
        → Result (Option R → R)
        → D
        → Result D
    put to_row rows row fresh d =
        if is_newer (date_under to_row (rows.find_unique row.primary_key d)) row.updated_at
        then ok d
        else fresh >>= λ f. written rows row.primary_key f d

    abbrev pub into : {A : Type 0} → Result D → (D → A) → Result A
    into (err e) f = err e
    into (ok d) f = ok (f d)

    unfoldable pub apply_row :
        ℕ → SyncTableName → SyncRowEnvelope Value → Tables D → Result (Tables D)
    apply_row now server_node row t =
        into
          (put node_row queries.server_nodes row (server_node_of now row.primary_key row.payload)
            t.nodes)
          (λ d. record t { nodes = d })
    apply_row now server_score_report row t =
        into
          (put report_row queries.score_reports row
            (score_report_of now row.primary_key row.payload) t.reports)
          (λ d. record t { reports = d })
    apply_row now server_score_aggregate row t =
        into
          (put aggregate_row queries.score_aggregates row
            (score_aggregate_of row.primary_key row.payload) t.aggregates)
          (λ d. record t { aggregates = d })
    apply_row now user row t =
        into
          (put user_row queries.users row (ok (synced_user now row.primary_key row.payload))
            t.people)
          (λ d. record t { people = d })
    apply_row now direct_message row t =
        into
          (put message_row queries.direct_messages row
            (direct_message_of now row.primary_key row.payload) t.messages)
          (λ d. record t { messages = d })

    unfoldable pub apply_single_row : ℕ → SyncRowEnvelope Value → Tables D → Result (Tables D)
    unfolding apply_row
    apply_single_row now row t = apply_row now row.table row t

    -- A row that cannot be written ends the loop, with the rows before it written.
    unfoldable pub apply_rows :
        ℕ → List (SyncRowEnvelope Value) → Tables D → Result (Unit {0}) × Tables D
    apply_rows now [] t = (ok tt, t)
    apply_rows now (row ∷ rows) t = elim (apply_single_row now row t) [
      | err e ↦ (err e, t)
      | ok t' ↦ apply_rows now rows t'
    ]
