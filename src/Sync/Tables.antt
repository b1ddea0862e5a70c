-- ===== src/Sync/Tables.antt =====
-- src/modules/peer_network/sync/services/table_sync_runner.service.ts, on the tables of
-- prisma/schema.prisma: the rows that servers exchange. A date is in milliseconds, an integer is
-- natural, and a `Float` is a fraction. The calendar, SHA-256 of a JSON text, and `String` of what is neither text nor a
-- constant are parameters.
use open_chat_be.Prelude.{Bool, Option, String, nat_eq, none, some, string_eq, ℕ, ◌≡◌, ◌≢◌}
use open_chat_be.Json.{Value, text, obj, num, fraction, bool, null, field, end}
use open_chat_be.DirectMessages.Types.{DirectMessage}
use open_chat_be.Sync.Types.{
  SyncTableName, server_node, server_score_report, server_score_aggregate, user, direct_message,
  SyncRowEnvelope,
}

pub record ServerNode : Type 0 where
  pub created_at : ℕ
  pub is_active : Bool
  pub last_announce_at : Option ℕ
  pub last_seen_at : ℕ
  pub listen_addresses : Value
  pub peer_id : String
  pub server_public_key : Option String
  pub updated_at : ℕ

pub record ServerScoreReport : Type 0 where
  pub created_at : ℕ
  pub expires_at : ℕ
  pub id : String
  pub observed_at : ℕ
  pub payload_hash : String
  pub reporter_peer_id : String
  pub reporter_server_public_key : String
  pub score : ℕ
  pub signature : String
  pub target_peer_id : String
  pub updated_at : ℕ

-- A `Float`, as a fraction.
pub record Mean : Type 0 where
  pub numerator : ℕ
  pub denominator : ℕ

pub record ServerScoreAggregate : Type 0 where
  pub last_report_at : ℕ
  pub mean_score : Mean
  pub report_count : ℕ
  pub target_peer_id : String
  pub updated_at : ℕ

pub record User : Type 0 where
  pub created_at : ℕ
  pub email : Option String
  pub name : Option String
  pub phone : Option String
  pub public_key : String
  pub quote : Option String
  pub updated_at : ℕ
  pub username : Option String
  pub verfiication_id : Option String
  pub x25519_public_key : Option String

pub record StoredMessage : Type 0 where
  pub created_at : ℕ
  pub message : DirectMessage

-- A row of one of the tables, which the code passes as `any`.
pub data TableRow : Type 0 where
  node_row : ServerNode → TableRow
  report_row : ServerScoreReport → TableRow
  aggregate_row : ServerScoreAggregate → TableRow
  user_row : User → TableRow
  message_row : StoredMessage → TableRow

abbrev pub table_of : TableRow → SyncTableName
table_of (node_row r) = server_node
table_of (report_row r) = server_score_report
table_of (aggregate_row r) = server_score_aggregate
table_of (user_row r) = user
table_of (message_row r) = direct_message

abbrev pub extract_primary_key : TableRow → String
extract_primary_key (node_row r) = r.peer_id
extract_primary_key (report_row r) = r.id
extract_primary_key (aggregate_row r) = r.target_peer_id
extract_primary_key (user_row r) = r.public_key
extract_primary_key (message_row r) = r.message.id

-- The date that a row is compared by.
abbrev pub changed_at : TableRow → ℕ
changed_at (node_row r) = r.updated_at
changed_at (report_row r) = r.updated_at
changed_at (aggregate_row r) = r.updated_at
changed_at (user_row r) = r.updated_at
changed_at (message_row r) = r.created_at

abbrev pub optional_text : Option String → Value
optional_text none = null
optional_text (some s) = text s

pub record SyncWorld : Type 0 where
  pub to_iso_string : ℕ → String
  -- `new Date(s)`, nothing if it is invalid
  pub parse_date : String → Option ℕ
  pub parse_date-to_iso_string : (at : ℕ) → parse_date (to_iso_string at) ≡ some at
  pub to_iso_string-ne-nil : (at : ℕ) → to_iso_string at ≢ ""
  -- the hash of `JSON.stringify` of the payload, the key, the table and the date
  pub row_hash : Value → String → SyncTableName → String → String
  -- `String` of a number, an array or an object
  pub text_of : Value → String
  -- `Number` of what is no number
  pub number_of : Value → ℕ

module _ (world : SyncWorld) where
  abbrev pub date : ℕ → Value
  date at = text (world.to_iso_string at)

  abbrev pub optional_date : Option ℕ → Value
  optional_date none = null
  optional_date (some at) = date at

  abbrev pub extract_updated_at : TableRow → String
  extract_updated_at row = world.to_iso_string (changed_at row)

  unfoldable pub to_payload : TableRow → Value
  to_payload (node_row r) = obj (
      field "created_at" (date r.created_at) (
        field "is_active" (bool r.is_active) (
          field "last_announce_at" (optional_date r.last_announce_at) (
            field "last_seen_at" (date r.last_seen_at) (
              field "listen_addresses" r.listen_addresses (
                field "peer_id" (text r.peer_id) (
                  field "server_public_key" (optional_text r.server_public_key)
                    (field "updated_at" (date r.updated_at) end))))))))
  to_payload (report_row r) = obj (
      field "created_at" (date r.created_at) (
        field "expires_at" (date r.expires_at) (
          field "id" (text r.id) (
            field "observed_at" (date r.observed_at) (
              field "payload_hash" (text r.payload_hash) (
                field "reporter_peer_id" (text r.reporter_peer_id) (
                  field "reporter_server_public_key" (text r.reporter_server_public_key) (
                    field "score" (num r.score) (
                      field "signature" (text r.signature) (
                        field "target_peer_id" (text r.target_peer_id)
                          (field "updated_at" (date r.updated_at) end)))))))))))
  to_payload (aggregate_row r) = obj (
      field "last_report_at" (date r.last_report_at) (
        field "mean_score" (fraction r.mean_score.numerator r.mean_score.denominator) (
          field "report_count" (num r.report_count) (
            field "target_peer_id" (text r.target_peer_id)
              (field "updated_at" (date r.updated_at) end)))))
  to_payload (user_row r) = obj (
      field "created_at" (date r.created_at) (
        field "email" (optional_text r.email) (
          field "name" (optional_text r.name) (
            field "phone" (optional_text r.phone) (
              field "public_key" (text r.public_key) (
                field "quote" (optional_text r.quote) (
                  field "updated_at" (date r.updated_at) (
                    field "username" (optional_text r.username) (
                      field "verfiication_id" (optional_text r.verfiication_id)
                        (field "x25519_public_key" (optional_text r.x25519_public_key) end))))))))))
  to_payload (message_row r) =
      let m = r.message in
      obj (
        field "algorithm" (text m.algorithm) (
          field "created_at" (date r.created_at) (
            field "expires_at" (date m.expires_at) (
              field "id" (text m.id) (
                field "is_replica_copy" (bool m.is_replica_copy) (
                  field "message" (text m.message) (
                    field "message_hash" (text m.message_hash) (
                      field "origin_server_peer_id" (optional_text m.origin_server_peer_id) (
                        field "recipient_public_key" (text m.recipient_public_key) (
                          field "replica_peer_ids" m.replica_peer_ids (
                            field "send_time" (date m.send_time) (
                              field "sender_public_key" (text m.sender_public_key) (
                                field "sender_signature" (text m.sender_signature) (
                                  field "sender_x25519_public_key" (text m.sender_x25519_public_key)
                                    end))))))))))))))

  unfoldable pub to_row_envelope : TableRow → SyncRowEnvelope Value
  to_row_envelope row =
      let key = extract_primary_key row in
      let at = extract_updated_at row in
      let payload = to_payload row in
      record {
        canonical_hash = world.row_hash payload key (table_of row) at;
        payload = payload;
        primary_key = key;
        table = table_of row;
        updated_at = at;
      }
