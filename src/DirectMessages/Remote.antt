-- ===== src/DirectMessages/Remote.antt =====
-- The requests of other servers in src/modules/direct_message/direct_message.service.ts.
pub mod Authority
pub mod Pages
use open_chat_be.Prelude.{
  Bool, List, Option, String, [], contains, false, if◌then◌else◌, keep, length, ltb, map, max, min,
  nat_beq, nat_eq, none, not, some, sort, string_eq, take, to_set, true, ℕ, ◌&&◌, ◌==◌, ◌||◌, ◌∷◌,
}
use open_chat_be.Results.{Result, ok, err}
use open_chat_be.Text.{trim, is_empty}
use open_chat_be.DirectMessages.Types.{
  DirectMessage, InterServerDmReplicatePayload, InterServerDmReplicateAckPayload,
  InterServerDmPullRequestPayload, InterServerDmPullResponsePayload,
  InterServerDmDeleteRequestPayload, InterServerDmDeleteAckPayload,
}
use open_chat_be.DirectMessages.Signature.{verify_direct_message_signature}
use open_chat_be.DirectMessages.Send.{require_date}
use open_chat_be.DirectMessages.Queue.{deleted_ack, signed_part, is_pending}
use open_chat_be.DirectMessages.Table.{
  MessageTable, DirectMessageConfig, MessageWorld, chat_message, Effect, emit_to_user, peers_json,
  normalize_peer_id_list, trimmed_or, create_expiry_date_from_send_time, map_chat_message_event,
  map_to_inter_server_replicate_payload,
}

-- the order of the identifiers in the database
abbrev pub id_before : (String → String → Bool) → DirectMessage → DirectMessage → Bool
id_before before a b = before a.id b.id

abbrev pub last_id : List DirectMessage → Option String
last_id [] = none
last_id (row ∷ []) = some row.id
last_id (row ∷ next ∷ rest) = last_id (next ∷ rest)

-- The origin and the replicas of a row, less empty names.
unfoldable pub authorized_peer_ids : DirectMessage → List String
authorized_peer_ids row = to_set (
    keep (λ peer_id. not (is_empty peer_id))
      (trimmed_or row.origin_server_peer_id "" ∷ normalize_peer_id_list row.replica_peer_ids))

module _ (world : MessageWorld) (config : DirectMessageConfig) {D : Type 0}
    (table : MessageTable D) where
  unfoldable pub replica_row : ℕ → ℕ → String → InterServerDmReplicatePayload → DirectMessage
  replica_row now send_time source_peer_id p =
      let origin = trimmed_or (some p.origin_server_peer_id) source_peer_id in
      record {
        algorithm = p.algorithm;
        expires_at = create_expiry_date_from_send_time world config now p.send_time;
        id = p.id;
        is_replica_copy = not (origin == world.local_peer_id);
        message = p.message;
        message_hash = p.message_hash;
        origin_server_peer_id = some origin;
        recipient_public_key = p.recipient_public_key;
        replica_peer_ids = peers_json (normalize_peer_id_list (peers_json p.replica_peer_ids));
        send_time = send_time;
        sender_public_key = p.sender_public_key;
        sender_signature = p.sender_signature;
        sender_x25519_public_key = p.sender_x25519_public_key;
      }

  abbrev pub live_delivery : DirectMessage → List Effect
  live_delivery row =
      if world.has_active_session row.recipient_public_key
      then emit_to_user row.recipient_public_key
          (chat_message (map_chat_message_event world config row))
        ∷ []
      else []

  unfoldable pub handle_inter_server_replicate_request :
      ℕ
      → InterServerDmReplicatePayload
      → String
      → D
      → Result InterServerDmReplicateAckPayload × D × List Effect
  handle_inter_server_replicate_request now p source_peer_id d =
      elim (verify_direct_message_signature world.signatures p.sender_public_key (signed_part p)) [
        | err e ↦ (err e, d, [])
        | ok false ↦ (ok (record { id = p.id; stored = false }), d, [])
        | ok true ↦ elim (require_date world.signatures p.send_time) [
          | err e ↦ (err e, d, [])
          | ok send_time ↦
              let row = replica_row now send_time source_peer_id p in
              (ok (record { id = p.id; stored = true }), table.upsert row d, live_delivery row)
        ]
      ]

  -- `payload.limit || pull_batch_size`, held between 1 and the size of a batch
  unfoldable pub pull_limit : ℕ → ℕ
  pull_limit limit =
      max 1 (min config.pull_batch_size (if nat_beq limit 0 then config.pull_batch_size else limit))

  module _ (before : String → String → Bool) where
    -- `id > cursor`; an empty cursor is none
    abbrev pub is_after : Option String → DirectMessage → Bool
    is_after none row = true
    is_after (some cursor) row = is_empty cursor || not (before row.id cursor)

    unfoldable pub pull_rows : ℕ → InterServerDmPullRequestPayload → D → List DirectMessage
    pull_rows now p d = take (pull_limit p.limit) (
        sort (id_before before)
          (keep (λ row. is_after p.cursor row && is_pending now p.public_key row) (table.rows d)))

    unfoldable pub handle_inter_server_pull_request :
        ℕ → InterServerDmPullRequestPayload → D → InterServerDmPullResponsePayload
    handle_inter_server_pull_request now p d =
        let rows = pull_rows now p d in
        record {
          items = map (map_to_inter_server_replicate_payload world config) rows;
          next_cursor = if nat_beq (length rows) (pull_limit p.limit) then last_id rows else none;
          public_key = p.public_key;
        }

  unfoldable pub delete_authorized :
      InterServerDmDeleteRequestPayload
      → String
      → DirectMessage
      → D
      → InterServerDmDeleteAckPayload × D
  delete_authorized p source_peer_id row d =
      if ltb 0 (length (authorized_peer_ids row))
        && not (contains (authorized_peer_ids row) source_peer_id)
      then (deleted_ack false p.message_id, d)
      else if not (row.recipient_public_key == p.recipient_public_key)
      then (deleted_ack false p.message_id, d)
      else (deleted_ack true p.message_id, table.delete p.message_id d)

  unfoldable pub handle_inter_server_delete_request :
      InterServerDmDeleteRequestPayload → String → D → InterServerDmDeleteAckPayload × D
  handle_inter_server_delete_request p source_peer_id d = elim (table.find_unique p.message_id d) [
    | none ↦ (deleted_ack true p.message_id, d)
    | some row ↦ delete_authorized p source_peer_id row d
  ]
