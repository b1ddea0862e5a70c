-- ===== src/Sync/Apply/Received.antt =====
-- What a server has of a row that another one sent.
use open_chat_be.Prelude.{
  Option, String, arith, if◌then◌else◌, nat_eq, none, refl, some, string_eq, ℕ, ◌==◌, ◌≡◌,
}
use open_chat_be.Results.{ok}
use open_chat_be.Json.{
  Value, is_array, get_field, null, undefined, arr, obj, text, num, fraction, bool,
}
use open_chat_be.Sync.Tables.{
  ServerNode, ServerScoreReport, ServerScoreAggregate, User, StoredMessage, node_row, report_row,
  aggregate_row, user_row, message_row, SyncWorld, to_payload, optional_text, date, optional_date,
}
use open_chat_be.Sync.Apply.{
  kept_date, to_date, date_or_null, text_or_null, json_column, array_or_undefined, server_node_of,
  score_report_of, score_aggregate_of, synced_user, direct_message_of, built_node, built_report,
  built_aggregate, built_message,
}

-- An empty text arrives as none.
abbrev pub given_text : Option String → Option String
given_text none = none
given_text (some s) = if s == "" then none else some s

-- A JSON value that is no array does not arrive.
abbrev pub given_array : {R : Type 0} → (R → Value) → Value → Option R → Value
given_array column v old = if is_array v then v else elim old [ none ↦ null | some r ↦ column r ]

-- What the other server has, `old` being the row that it had, if any.
abbrev pub received_node : ℕ → Option ServerNode → ServerNode → ServerNode
received_node now old r = record r {
  created_at = kept_date (λ (o : ServerNode). o.created_at) now old;
  listen_addresses = given_array (λ (o : ServerNode). o.listen_addresses) r.listen_addresses old;
  server_public_key = given_text r.server_public_key;
  updated_at = now;
}

abbrev pub received_report : ℕ → Option ServerScoreReport → ServerScoreReport → ServerScoreReport
received_report now old r = record r {
  created_at = kept_date (λ (o : ServerScoreReport). o.created_at) now old;
  updated_at = now;
}

abbrev pub received_user : ℕ → Option User → User → User
received_user now old r = record r {
  created_at = kept_date (λ (o : User). o.created_at) now old;
  email = given_text r.email;
  name = given_text r.name;
  phone = given_text r.phone;
  quote = given_text r.quote;
  updated_at = now;
  username = given_text r.username;
  verfiication_id = given_text r.verfiication_id;
  x25519_public_key = given_text r.x25519_public_key;
}

abbrev pub received_message : ℕ → Option StoredMessage → StoredMessage → StoredMessage
received_message now old r = record {
  created_at = kept_date (λ (o : StoredMessage). o.created_at) now old;
  message = record r.message {
    origin_server_peer_id = given_text r.message.origin_server_peer_id;
    replica_peer_ids =
        given_array (λ (o : StoredMessage). o.message.replica_peer_ids) r.message.replica_peer_ids
          old;
  };
}

module _ (world : SyncWorld) where
  text_or_null-optional_text :
      (o : Option String) → text_or_null world (optional_text o) ≡ given_text o
  text_or_null-optional_text none = refl
  text_or_null-optional_text (some s) = ground arith

  unset-column :
      {R : Type 0} (column : R → Value) (old : Option R)
      → json_column column undefined old ≡ elim old [ none ↦ null | some r ↦ column r ]
  unset-column column none = refl
  unset-column column (some r) = refl

  column-received :
      {R : Type 0} (column : R → Value) (v : Value) (old : Option R)
      → json_column column (array_or_undefined world v) old ≡ given_array column v old
  column-received column (arr vs) old = refl
  column-received column (obj fs) old = unset-column column old
  column-received column (text s) old = unset-column column old
  column-received column (num n) old = unset-column column old
  column-received column (fraction a b) old = unset-column column old
  column-received column (bool b) old = unset-column column old
  column-received column undefined old = unset-column column old
  column-received column null old = unset-column column old

  to_date-date : (at : ℕ) → to_date world (date world at) ≡ ok at
  to_date-date at = ground (arith, world.parse_date-to_iso_string at)

  date_or_null-optional_date : (o : Option ℕ) → date_or_null world (optional_date world o) ≡ ok o
  date_or_null-optional_date none = refl
  date_or_null-optional_date (some at) = ground (
    arith,
    world.parse_date-to_iso_string at,
    world.to_iso_string-ne-nil at,
    string_eq.beq_iff (world.to_iso_string at) "",
  )

  pub node-received :
      (now : ℕ) (r : ServerNode) (old : Option ServerNode)
      → built_node world now r.peer_id
          (to_payload world (node_row r))
          r.last_announce_at
          r.last_seen_at
          old
        ≡ received_node now old r
  unfolding to_payload get_field
  node-received now r old = cc (
    text_or_null-optional_text r.server_public_key,
    column-received (λ (o : ServerNode). o.listen_addresses) r.listen_addresses old,
  )

  pub node-sent :
      (now : ℕ) (r : ServerNode)
      → server_node_of world now r.peer_id (to_payload world (node_row r))
        ≡ ok (
            built_node world now r.peer_id
              (to_payload world (node_row r))
              r.last_announce_at
              r.last_seen_at)
  unfolding server_node_of to_payload get_field
  node-sent now r = cc (date_or_null-optional_date r.last_announce_at, to_date-date r.last_seen_at)

  pub user-received :
      (now : ℕ) (r : User) (old : Option User)
      → synced_user world now r.public_key (to_payload world (user_row r)) old
        ≡ received_user now old r
  unfolding synced_user to_payload get_field
  user-received now r old = cc (
    text_or_null-optional_text r.email,
    text_or_null-optional_text r.name,
    text_or_null-optional_text r.phone,
    text_or_null-optional_text r.quote,
    text_or_null-optional_text r.username,
    text_or_null-optional_text r.verfiication_id,
    text_or_null-optional_text r.x25519_public_key,
  )

  pub report-sent :
      (now : ℕ) (r : ServerScoreReport)
      → score_report_of world now r.id (to_payload world (report_row r))
        ≡ ok (
            built_report world now r.id
              (to_payload world (report_row r))
              r.expires_at
              r.observed_at)
  unfolding score_report_of to_payload get_field
  report-sent now r = cc (to_date-date r.expires_at, to_date-date r.observed_at)

  pub report-received :
      (now : ℕ) (r : ServerScoreReport) (old : Option ServerScoreReport)
      → built_report world now r.id (to_payload world (report_row r)) r.expires_at r.observed_at old
        ≡ received_report now old r
  unfolding to_payload get_field
  report-received now r old = refl

  pub aggregate-sent :
      (r : ServerScoreAggregate)
      → score_aggregate_of world r.target_peer_id (to_payload world (aggregate_row r))
        ≡ ok (
            built_aggregate world r.target_peer_id
              (to_payload world (aggregate_row r))
              r.last_report_at
              r.updated_at)
  unfolding score_aggregate_of to_payload get_field
  aggregate-sent r = cc (to_date-date r.last_report_at, to_date-date r.updated_at)

  pub aggregate-received :
      (r : ServerScoreAggregate) (old : Option ServerScoreAggregate)
      → built_aggregate world r.target_peer_id
          (to_payload world (aggregate_row r))
          r.last_report_at
          r.updated_at
          old
        ≡ r
  unfolding to_payload get_field
  aggregate-received r old = refl

  pub message-sent :
      (now : ℕ) (r : StoredMessage)
      → direct_message_of world now r.message.id (to_payload world (message_row r))
        ≡ ok (
            built_message world now r.message.id
              (to_payload world (message_row r))
              r.message.expires_at
              r.message.send_time)
  unfolding direct_message_of to_payload get_field
  message-sent now r = cc (to_date-date r.message.expires_at, to_date-date r.message.send_time)

  pub message-received :
      (now : ℕ) (r : StoredMessage) (old : Option StoredMessage)
      → built_message world now r.message.id
          (to_payload world (message_row r))
          r.message.expires_at
          r.message.send_time
          old
        ≡ received_message now old r
  unfolding to_payload get_field
  message-received now r old = cc (
    text_or_null-optional_text r.message.origin_server_peer_id,
    column-received (λ (o : StoredMessage). o.message.replica_peer_ids) r.message.replica_peer_ids
        old,
  )
