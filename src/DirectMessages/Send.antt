-- ===== src/DirectMessages/Send.antt =====
-- `handle_chat_message_send` of src/modules/direct_message/direct_message.service.ts.
pub mod Outcome
pub mod Replicated
use open_chat_be.Prelude.{
  List, Option, String, [], contains, false, if◌then◌else◌, keep, leb, length, nat_eq, none, not,
  some, string_eq, to_set, true, ℕ, ◌&&◌, ◌++◌, ◌==◌, ◌∷◌,
}
use open_chat_be.Results.{
  Result, ok, err, Exception, unauthorized, not_found, service_unavailable, failure, ◌>>=◌, ◌>>◌,
  require,
}
use open_chat_be.Json.{Value}
use open_chat_be.Text.{is_empty}
use open_chat_be.DirectMessages.Types.{
  ChatMessageSendPayload, ChatMessageAcceptedPayload, DirectMessage, InterServerDmReplicatePayload,
  ReplicateToPeersInput,
}
use open_chat_be.DirectMessages.Signature.{
  SignatureWorld, parse_chat_message_send_payload, verify_direct_message_signature,
}
use open_chat_be.DirectMessages.Table.{
  MessageTable, DirectMessageConfig, UserKeys, MessageWorld, chat_message, chat_message_accepted,
  Effect, emit_to_user, replicate_to_peers, peers_json, create_expiry_date, map_chat_message_event,
  map_chat_message_accepted_event,
}

-- What is known of a message once nothing stands against storing it.
pub record CheckedSend : Type 0 where
  pub payload : ChatMessageSendPayload
  pub replica_peer_ids : List String
  pub send_time : ℕ
  pub sender_x25519_public_key : String

-- `if (!user?.x25519_public_key) throw …`
abbrev pub require_x25519 : Option UserKeys → Exception → Result String
require_x25519 none e = err e
require_x25519 (some user) e = elim user.x25519_public_key [
  | none ↦ err e
  | some key ↦ if is_empty key then err e else ok key
]

-- `new Date(text)`, which the database refuses where it is no date
abbrev pub require_date : SignatureWorld → String → Result ℕ
require_date signatures send_time = elim (signatures.parse_date send_time) [
  | none ↦ err (failure "Invalid Date")
  | some ms ↦ ok ms
]

module _ (world : MessageWorld) (config : DirectMessageConfig) where
  unfoldable pub check_send : String → Value → Result CheckedSend
  check_send sender_public_key value = do
    payload ← parse_chat_message_send_payload world.signatures value
    is_valid ← verify_direct_message_signature world.signatures sender_public_key payload
    require is_valid (unauthorized "Direct-message signature verification failed.")
    sender_key ←
        require_x25519 (world.find_user sender_public_key)
          (not_found "Sender X25519 public key is not registered on the server.")
    recipient_key ←
        require_x25519 (world.find_user payload.recipient_public_key)
          (not_found "Recipient X25519 public key is not available.")
    let replicas =
        world.select_replica_peer_ids payload.recipient_public_key config.replica_remote_count
    require (leb config.replica_remote_count (length replicas))
        (service_unavailable "Unable to select enough remote replica servers for this recipient.")
    send_time ← require_date world.signatures payload.send_time
    ok (record {
      payload = payload;
      replica_peer_ids = to_set replicas;
      send_time = send_time;
      sender_x25519_public_key = sender_key;
    })

  unfoldable pub queued_row : ℕ → String → CheckedSend → DirectMessage
  queued_row now sender_public_key c = record {
    algorithm = c.payload.algorithm;
    expires_at = create_expiry_date world config now;
    id = c.payload.id;
    is_replica_copy = false;
    message = c.payload.message;
    message_hash = c.payload.message_hash;
    origin_server_peer_id = some world.local_peer_id;
    recipient_public_key = c.payload.recipient_public_key;
    replica_peer_ids = peers_json c.replica_peer_ids;
    send_time = c.send_time;
    sender_public_key = sender_public_key;
    sender_signature = c.payload.sender_signature;
    sender_x25519_public_key = c.sender_x25519_public_key;
  }

  unfoldable pub replicate_payload : DirectMessage → List String → InterServerDmReplicatePayload
  replicate_payload row replica_peer_ids = record {
    algorithm = row.algorithm;
    id = row.id;
    message = row.message;
    message_hash = row.message_hash;
    origin_server_peer_id = world.local_peer_id;
    recipient_public_key = row.recipient_public_key;
    replica_peer_ids = replica_peer_ids;
    send_time = world.to_iso_string row.send_time;
    sender_public_key = row.sender_public_key;
    sender_signature = row.sender_signature;
    sender_x25519_public_key = row.sender_x25519_public_key;
  }

  unfoldable pub quorum_request : DirectMessage → List String → ReplicateToPeersInput
  quorum_request row peer_ids = record {
    payload = replicate_payload row peer_ids;
    peer_ids = peer_ids;
    require_quorum = true;
  }

  -- The servers that the recipient is connected to, less this one and the replicas.
  unfoldable pub live_delivery_peer_ids : String → List String → List String
  live_delivery_peer_ids public_key replicas =
      keep
        (λ peer_id.
          not (is_empty peer_id)
          && not (peer_id == world.local_peer_id)
          && not (contains replicas peer_id))
        (world.query_user_presence public_key replicas)

  unfoldable pub send_events : String → DirectMessage → List Effect
  send_events sender_public_key row =
      (if world.has_active_session row.recipient_public_key
        then emit_to_user row.recipient_public_key
            (chat_message (map_chat_message_event world config row))
          ∷ []
        else [])
      ++ emit_to_user sender_public_key
          (chat_message_accepted (map_chat_message_accepted_event world config row))
        ∷ []

  module _ {D : Type 0} (table : MessageTable D) where
    unfoldable pub extend_to_live : DirectMessage → List String → List String → D → D × List Effect
    extend_to_live row replicas [] d = (d, [])
    extend_to_live row replicas (peer ∷ peers) d =
        let effective = to_set (replicas ++ peer ∷ peers) in
        (
          table.update_replicas row.id (peers_json effective) d,
          replicate_to_peers (record {
            payload = replicate_payload row effective;
            peer_ids = peer ∷ peers;
            require_quorum = false;
          })
              ∷ [],
        )

    unfoldable pub send_checked :
        ℕ → String → CheckedSend → D → Result ChatMessageAcceptedPayload × D × List Effect
    send_checked now sender_public_key c d =
        let row = queued_row now sender_public_key c in
        let request = quorum_request row c.replica_peer_ids in
        let d1 = table.upsert row d in
        if not (world.replicate request).quorum_met
        then (
          err (service_unavailable "Failed to replicate direct message to required remote quorum."),
          table.delete_many (λ r. r.id == row.id) d1,
          replicate_to_peers request ∷ [],
        )
        else (let live = live_delivery_peer_ids row.recipient_public_key c.replica_peer_ids in
            let (d2, extended) = extend_to_live row c.replica_peer_ids live d1 in
            (
              ok (map_chat_message_accepted_event world config row),
              d2,
              replicate_to_peers request ∷ extended ++ send_events sender_public_key row,
            ))

    unfoldable pub handle_chat_message_send :
        ℕ → String → Value → D → Result ChatMessageAcceptedPayload × D × List Effect
    handle_chat_message_send now sender_public_key value d =
        elim (check_send sender_public_key value) [
          | err e ↦ (err e, d, [])
          | ok c ↦ send_checked now sender_public_key c d
        ]
