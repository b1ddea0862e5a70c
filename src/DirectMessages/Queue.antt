-- ===== src/DirectMessages/Queue.antt =====
-- `handle_chat_message_persisted`, `handle_chat_sync` and `handle_user_connected` of
-- src/modules/direct_message/direct_message.service.ts, and the removal of expired rows.
pub mod Persisted
pub mod Pulled
use open_chat_be.Prelude.{
  Bool, List, Option, String, [], false, if◌then◌else◌, keep, leb, length, ltb, map, nat_eq, none,
  not, some, sort, string_eq, true, ℕ, ◌&&◌, ◌++◌, ◌==◌, ◌∷◌,
}
use open_chat_be.Results.{Result, ok, err, unauthorized}
use open_chat_be.Json.{Value}
use open_chat_be.Text.{trim, is_empty}
use open_chat_be.DirectMessages.Types.{
  ChatMessageSendPayload, DirectMessage, InterServerDmReplicatePayload,
  InterServerDmDeleteAckPayload,
}
use open_chat_be.DirectMessages.Signature.{
  parse_chat_message_persisted_payload, verify_direct_message_signature,
}
use open_chat_be.DirectMessages.Send.{require_date}
use open_chat_be.DirectMessages.Table.{
  MessageTable, DirectMessageConfig, MessageWorld, MessageEvent, chat_message, Effect, emit_to_user,
  targeted_delete, announce_presence, peers_json, normalize_peer_id_list, trimmed_or,
  create_expiry_date_from_send_time, map_chat_message_event,
}

abbrev pub deleted_ack : Bool → String → InterServerDmDeleteAckPayload
deleted_ack deleted message_id = record { deleted = deleted; message_id = message_id }

-- The part of a payload from a peer that its sender signed.
abbrev pub signed_part : InterServerDmReplicatePayload → ChatMessageSendPayload
signed_part p = record {
  algorithm = p.algorithm;
  id = p.id;
  message = p.message;
  message_hash = p.message_hash;
  recipient_public_key = p.recipient_public_key;
  sender_signature = p.sender_signature;
  send_time = p.send_time;
}

-- `value?.trim() || null`
abbrev pub trimmed : String → Option String
trimmed s = if is_empty (trim s) then none else some (trim s)

-- oldest first
abbrev pub sent_before : DirectMessage → DirectMessage → Bool
sent_before a b = leb a.send_time b.send_time

abbrev pub is_pending : ℕ → String → DirectMessage → Bool
is_pending now public_key row = ltb now row.expires_at && row.recipient_public_key == public_key

module _ (world : MessageWorld) (config : DirectMessageConfig) {D : Type 0}
    (table : MessageTable D) where
  unfoldable pub delete_persisted :
      String → String → DirectMessage → D → Result InterServerDmDeleteAckPayload × D × List Effect
  delete_persisted recipient_public_key message_id row d =
      if not (row.recipient_public_key == recipient_public_key)
      then (
        err (unauthorized "This message does not belong to the authenticated recipient."),
        d,
        [],
      )
      else (
        ok (deleted_ack true message_id),
        table.delete message_id d,
        targeted_delete (record {
          message_id = message_id;
          origin_server_peer_id = trimmed_or row.origin_server_peer_id world.local_peer_id;
          recipient_public_key = recipient_public_key;
          replica_peer_ids = normalize_peer_id_list row.replica_peer_ids;
        })
            ∷ [],
      )

  unfoldable pub handle_chat_message_persisted :
      String → Value → D → Result InterServerDmDeleteAckPayload × D × List Effect
  handle_chat_message_persisted recipient_public_key value d =
      elim (parse_chat_message_persisted_payload value) [
        | err e ↦ (err e, d, [])
        | ok message_id ↦ elim (table.find_unique message_id d) [
          | none ↦ (ok (deleted_ack true message_id), d, [])
          | some row ↦ delete_persisted recipient_public_key message_id row d
        ]
      ]

  -- The row for a message that a replica had kept.
  unfoldable pub pulled_row : ℕ → ℕ → InterServerDmReplicatePayload → DirectMessage
  pulled_row now send_time p = record {
    algorithm = p.algorithm;
    expires_at = create_expiry_date_from_send_time world config now p.send_time;
    id = p.id;
    is_replica_copy = true;
    message = p.message;
    message_hash = p.message_hash;
    origin_server_peer_id = trimmed p.origin_server_peer_id;
    recipient_public_key = p.recipient_public_key;
    replica_peer_ids = peers_json (normalize_peer_id_list (peers_json p.replica_peer_ids));
    send_time = send_time;
    sender_public_key = p.sender_public_key;
    sender_signature = p.sender_signature;
    sender_x25519_public_key = p.sender_x25519_public_key;
  }

  -- One turn of the loop: a bad signature is passed over, and an exception ends the loop.
  unfoldable pub store_pulled_message :
      ℕ → InterServerDmReplicatePayload → D → Result (Unit {0}) × D
  store_pulled_message now p d =
      elim (verify_direct_message_signature world.signatures p.sender_public_key (signed_part p)) [
        | err e ↦ (err e, d)
        | ok false ↦ (ok tt, d)
        | ok true ↦ elim (require_date world.signatures p.send_time) [
          | err e ↦ (err e, d)
          | ok send_time ↦ (ok tt, table.upsert (pulled_row now send_time p) d)
        ]
      ]

  unfoldable pub store_pulled_messages :
      ℕ → List InterServerDmReplicatePayload → D → Result (Unit {0}) × D
  store_pulled_messages now [] d = (ok tt, d)
  store_pulled_messages now (p ∷ ps) d =
      let (result, d') = store_pulled_message now p d in
      elim result [ err e ↦ (err e, d') | ok _ ↦ store_pulled_messages now ps d' ]

  unfoldable pub synchronize_from :
      ℕ → String → List String → D → Result (Unit {0}) × D × List Effect
  unfolding store_pulled_messages
  synchronize_from now public_key [] d = (ok tt, d, [])
  synchronize_from now public_key (peer ∷ peers) d =
      let (result, d') =
        store_pulled_messages now (world.pull_pending public_key (peer ∷ peers)) d in
      (result, d', announce_presence public_key (peer ∷ peers) ∷ [])

  unfoldable pub synchronize_user_queue_from_replicas :
      ℕ → String → D → Result (Unit {0}) × D × List Effect
  synchronize_user_queue_from_replicas now public_key d =
      synchronize_from now public_key
        (world.select_replica_peer_ids public_key config.replica_remote_count) d

  unfoldable pub handle_user_connected : ℕ → String → D → Result (Unit {0}) × D × List Effect
  handle_user_connected now public_key d = synchronize_user_queue_from_replicas now public_key d

  abbrev pub queued_messages : ℕ → String → D → List DirectMessage
  queued_messages now public_key d =
      sort sent_before (keep (is_pending now public_key) (table.rows d))

  abbrev pub replay_effects : String → List DirectMessage → List Effect
  replay_effects public_key rows =
      map (λ row. emit_to_user public_key (chat_message (map_chat_message_event world config row)))
        rows

  unfoldable pub handle_chat_sync : ℕ → String → D → Result ℕ × D × List Effect
  handle_chat_sync now public_key d =
      let (result, d', announced) = synchronize_user_queue_from_replicas now public_key d in
      elim result [
        | err e ↦ (err e, d', announced)
        | ok _ ↦
            let rows = queued_messages now public_key d' in
            (ok (length rows), d', announced ++ replay_effects public_key rows)
      ]

  unfoldable pub delete_expired_messages : ℕ → D → D
  delete_expired_messages now d = table.delete_many (λ row. leb row.expires_at now) d
