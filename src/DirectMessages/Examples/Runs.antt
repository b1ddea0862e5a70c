-- ===== src/DirectMessages/Examples/Runs.antt =====
-- Runs of the handlers of direct messages.
use open_chat_be.Prelude.{
  All, Bool, NoDup, String, [], add, add_all, arith, contains, false, if◌then◌else◌, length, map,
  min, nat_eq, ne_of_beq, none, refl, some, sort, string_eq, to_set, true, ℕ, ◌*◌, ◌+◌, ◌==◌, ◌∷◌,
  ◌≡◌, ◌≢◌, ◌≤◌, ◌⊎◌,
}
use mathlib.Core.List.{Perm, Memᴰ}
use open_chat_be.Results.{Exception, ok, err, bad_request, service_unavailable}
use open_chat_be.Json.{Value, text, obj, field, end}
use open_chat_be.DirectMessages.Types.{
  ChatMessageAcceptedPayload, DirectMessage, InterServerDmReplicatePayload,
  InterServerDmDeleteRequestPayload, InterServerDmPullRequestPayload,
}
use open_chat_be.DirectMessages.Signature.{
  SignatureWorld, verify_direct_message_signature, parse_chat_message_persisted_payload,
  supported_algorithm,
}
use open_chat_be.DirectMessages.Table.{
  map_to_inter_server_replicate_payload, MessageWorld, DirectMessageConfig, UserKeys, Effect,
  announce_presence, peers_json, map_chat_message_accepted_event,
}
use open_chat_be.DirectMessages.Send.{
  CheckedSend, check_send, queued_row, quorum_request, handle_chat_message_send,
}
use open_chat_be.DirectMessages.Send.Outcome.{
  IsStored, is_emit, handle_chat_message_send-accepted, handle_chat_message_send-refused,
}
use open_chat_be.DirectMessages.Queue.{
  signed_part, handle_chat_message_persisted, handle_chat_sync, store_pulled_messages,
}
use open_chat_be.DirectMessages.Queue.Persisted.{handle_chat_message_persisted-foreign}
use open_chat_be.DirectMessages.Queue.Pulled.{
  IsFromOneOf, store_pulled_messages-signed, handle_chat_sync-blocked,
}
use open_chat_be.DirectMessages.Remote.{
  replica_row, handle_inter_server_replicate_request, handle_inter_server_delete_request,
  handle_inter_server_pull_request, pull_rows, pull_limit,
}
use open_chat_be.DirectMessages.Remote.Authority.{
  IsAuthorized, handle_inter_server_delete_request-authority,
  handle_inter_server_delete_request-others, handle_inter_server_replicate_request-signed,
}
use open_chat_be.DirectMessages.Remote.Pages.{asked_rows, handle_inter_server_pull_request-complete}
use open_chat_be.DirectMessages.Examples.{table}
use open_chat_be.DirectMessages.Send.Replicated.{connected, handle_chat_message_send-replicated}
use open_chat_be.PeerNetwork.Quorum.{replicate_direct_message_to_peers, remote_peer_ids, has_stored}

abbrev alice : String
alice = "0xaaaaaaaaaaaaaaaaaaaaaaaaaaaaaaaaaaaaaaaaaaaaaaaaaaaaaaaaaaaaaaaa"

abbrev bob : String
bob = "0xbbbbbbbbbbbbbbbbbbbbbbbbbbbbbbbbbbbbbbbbbbbbbbbbbbbbbbbbbbbbbbbb"

abbrev signature : String
signature =
    "0xcccccccccccccccccccccccccccccccccccccccccccccccccccccccccccccccccccccccccccccccccccccccccccccccccccccccccccccccccccccccccccccccc"

abbrev digest : String
digest = "dddddddddddddddddddddddddddddddddddddddddddddddddddddddddddddddd"

abbrev id_a : String
id_a = "11111111-1111-4111-8111-111111111111"

abbrev id_b : String
id_b = "22222222-2222-4222-9222-222222222222"

abbrev signatures : SignatureWorld
signatures = record {
  quote = λ s. s;
  sha256_hex = λ s. digest;
  verify = λ given message key. ok true;
  parse_date = λ s. if s == "today" then some 1000 else none;
}

abbrev pulled : String → InterServerDmReplicatePayload
pulled id = record {
  algorithm = supported_algorithm;
  id = id;
  message = "hello";
  message_hash = "0xdddddddddddddddddddddddddddddddddddddddddddddddddddddddddddddddd";
  origin_server_peer_id = "p1";
  recipient_public_key = bob;
  replica_peer_ids = "p2" ∷ [];
  send_time = "today";
  sender_public_key = alice;
  sender_signature = signature;
  sender_x25519_public_key = "xa";
}

-- Two replicas; a replication that wants a quorum gets the given answer, and the replicas hand out
-- a message with the given identifier.
abbrev world_with : Bool → String → MessageWorld
world_with quorum id = record {
  signatures = signatures;
  to_iso_string = λ ms. "today";
  add_days = λ days ms. ms + days * 86400000;
  find_user = λ key. some (record { public_key = key; x25519_public_key = some "xa" });
  has_active_session = λ key. true;
  local_peer_id = "p1";
  select_replica_peer_ids = λ key count. "p2" ∷ "p3" ∷ [];
  replicate =
      λ input. record { acknowledged_peer_ids = []; failed_peer_ids = []; quorum_met = quorum };
  query_user_presence = λ key peers. "p2" ∷ "p4" ∷ [];
  pull_pending = λ key peers. pulled id ∷ [];
}

abbrev world : MessageWorld
world = world_with true id_a

abbrev config : DirectMessageConfig
config = record { retention_days = 90; replica_remote_count = 2; pull_batch_size = 2 }

abbrev body : Value
body = obj (
    field "algorithm" (text supported_algorithm) (
      field "id" (text id_a) (
        field "message" (text "hello") (
          field "message_hash" (text digest) (
            field "recipient_public_key" (text bob) (
              field "sender_signature" (text signature) (field "send_time" (text "today") end)))))))

-- A row that is kept for Bob, for its origin "p1" and its replica "p2".
abbrev kept : String → DirectMessage
kept id = record {
  algorithm = supported_algorithm;
  expires_at = 9000;
  id = id;
  is_replica_copy = false;
  message = "hi";
  message_hash = "0xdd";
  origin_server_peer_id = some "p1";
  recipient_public_key = bob;
  replica_peer_ids = peers_json ("p2" ∷ []);
  send_time = 500;
  sender_public_key = alice;
  sender_signature = signature;
  sender_x25519_public_key = "xa";
}

abbrev accepted : ChatMessageAcceptedPayload
accepted = record {
  expires_at = "today";
  id = id_a;
  recipient_public_key = bob;
  send_time = "today";
}

handle_chat_message_send-accepted_example :
    (c : CheckedSend) × (check_send world config alice body ≡ ok c)
    × (verify_direct_message_signature signatures alice c.payload ≡ ok true)
    × ((world.replicate (
          quorum_request world config
            (queued_row world config 1000 alice c)
            c.replica_peer_ids)).quorum_met
        ≡ true)
    × IsStored world config table alice c accepted
        (handle_chat_message_send world config table 1000 alice body (kept id_b ∷ [])).1
unfolding check_send handle_chat_message_send map_chat_message_accepted_event
    open_chat_be.DirectMessages.Send.extend_to_live
    open_chat_be.DirectMessages.Send.live_delivery_peer_ids
    open_chat_be.DirectMessages.Send.replicate_payload open_chat_be.DirectMessages.Send.send_checked
    open_chat_be.DirectMessages.Send.send_events
    open_chat_be.DirectMessages.Signature.build_direct_message_signature_payload
    open_chat_be.DirectMessages.Signature.create_direct_message_hash
    open_chat_be.DirectMessages.Signature.create_direct_message_signature_message
    open_chat_be.DirectMessages.Signature.is_uuid_v4
    open_chat_be.DirectMessages.Signature.normalize_algorithm
    open_chat_be.DirectMessages.Signature.normalize_message
    open_chat_be.DirectMessages.Signature.normalize_message_hash
    open_chat_be.DirectMessages.Signature.normalize_message_id
    open_chat_be.DirectMessages.Signature.normalize_send_time
    open_chat_be.DirectMessages.Signature.parse_chat_message_send_payload
    open_chat_be.DirectMessages.Table.create_expiry_date
    open_chat_be.DirectMessages.Table.map_chat_message_event open_chat_be.Json.get_field
    open_chat_be.Prelude.add open_chat_be.Prelude.add_all open_chat_be.Prelude.contains
    open_chat_be.Prelude.to_set open_chat_be.Realtime.Signature.normalize_public_key
    open_chat_be.Realtime.Signature.normalize_signature open_chat_be.Text.is_hex_digit
    open_chat_be.Text.is_hex_text open_chat_be.Text.trim open_chat_be.Text.with_hex_prefix
    peers_json queued_row quorum_request table verify_direct_message_signature
handle_chat_message_send-accepted_example =
    handle_chat_message_send-accepted world config table 1000 alice body accepted (kept id_b ∷ [])
      refl

abbrev no_quorum : MessageWorld
no_quorum = world_with false id_a

handle_chat_message_send-refused_example :
    All
      (λ effect. is_emit effect ≡ false)
      (handle_chat_message_send no_quorum config table 1000 alice body (kept id_b ∷ [])).2
    × ((id : String)
        → (table.find_unique id
              (handle_chat_message_send no_quorum config table 1000 alice body (kept id_b ∷ [])).1
            ≡ table.find_unique id (kept id_b ∷ []))
          ⊎ ((c : CheckedSend) × (check_send no_quorum config alice body ≡ ok c)
              × (c.payload.id ≡ id)
              × (table.find_unique id
                    (handle_chat_message_send no_quorum config table 1000 alice body
                      (kept id_b ∷ [])).1
                  ≡ none)))
unfolding check_send handle_chat_message_send map_chat_message_accepted_event
    open_chat_be.DirectMessages.Send.extend_to_live
    open_chat_be.DirectMessages.Send.live_delivery_peer_ids
    open_chat_be.DirectMessages.Send.replicate_payload open_chat_be.DirectMessages.Send.send_checked
    open_chat_be.DirectMessages.Send.send_events
    open_chat_be.DirectMessages.Signature.build_direct_message_signature_payload
    open_chat_be.DirectMessages.Signature.create_direct_message_hash
    open_chat_be.DirectMessages.Signature.create_direct_message_signature_message
    open_chat_be.DirectMessages.Signature.is_uuid_v4
    open_chat_be.DirectMessages.Signature.normalize_algorithm
    open_chat_be.DirectMessages.Signature.normalize_message
    open_chat_be.DirectMessages.Signature.normalize_message_hash
    open_chat_be.DirectMessages.Signature.normalize_message_id
    open_chat_be.DirectMessages.Signature.normalize_send_time
    open_chat_be.DirectMessages.Signature.parse_chat_message_send_payload
    open_chat_be.DirectMessages.Table.create_expiry_date
    open_chat_be.DirectMessages.Table.map_chat_message_event open_chat_be.Json.get_field
    open_chat_be.Prelude.add open_chat_be.Prelude.add_all open_chat_be.Prelude.contains
    open_chat_be.Prelude.to_set open_chat_be.Realtime.Signature.normalize_public_key
    open_chat_be.Realtime.Signature.normalize_signature open_chat_be.Text.is_hex_digit
    open_chat_be.Text.is_hex_text open_chat_be.Text.trim open_chat_be.Text.with_hex_prefix
    peers_json queued_row quorum_request table verify_direct_message_signature
handle_chat_message_send-refused_example =
    handle_chat_message_send-refused no_quorum config table 1000 alice body
      (service_unavailable "Failed to replicate direct message to required remote quorum.")
      (kept id_b ∷ []) refl

abbrev checked : CheckedSend
checked = record {
  payload = record (signed_part (pulled id_a)) { id = id_a };
  replica_peer_ids = "p2" ∷ "p3" ∷ [];
  send_time = 1000;
  sender_x25519_public_key = "xa";
}

abbrev confirmation : Value
confirmation = obj (field "message_id" (text id_b) end)

handle_chat_message_persisted-foreign_example :
    table.find_unique id_b
      (handle_chat_message_persisted world config table alice confirmation (kept id_b ∷ [])).1
    ≡ some (kept id_b)
unfolding table
handle_chat_message_persisted-foreign_example =
    handle_chat_message_persisted-foreign world config table alice confirmation id_b (kept id_b)
      (kept id_b ∷ []) refl (ne_of_beq bob alice refl)

store_pulled_messages-signed_example :
    (table.find_unique id_a
        (store_pulled_messages world config table 1000 (pulled id_a ∷ []) (kept id_b ∷ [])).1
      ≡ table.find_unique id_a (kept id_b ∷ []))
    ⊎ IsFromOneOf world config table 1000 (pulled id_a ∷ []) id_a (
        table.find_unique id_a
          (store_pulled_messages world config table 1000 (pulled id_a ∷ []) (kept id_b ∷ [])).1)
store_pulled_messages-signed_example =
    store_pulled_messages-signed world config table 1000 (pulled id_a ∷ []) id_a (kept id_b ∷ [])

-- The replicas hand out a message that is right, and one whose identifier is none.
abbrev malformed_world : MessageWorld
malformed_world = record world { pull_pending = λ key peers. pulled id_a ∷ pulled "x" ∷ [] }

handle_chat_sync-blocked_example :
    let (result, d', effects) =
      handle_chat_sync malformed_world config table 1000 bob (kept id_b ∷ []) in
    ((thrown : Exception) × (result ≡ err thrown))
    × (effects ≡ announce_presence bob ("p2" ∷ "p3" ∷ []) ∷ [])
    × ((id : String)
        → (table.find_unique id d' ≡ table.find_unique id (kept id_b ∷ []))
          ⊎ IsFromOneOf malformed_world config table 1000
              (pulled id_a ∷ pulled "x" ∷ [])
              id
              (table.find_unique id d'))
unfolding open_chat_be.DirectMessages.Signature.build_direct_message_signature_payload
    open_chat_be.DirectMessages.Signature.is_uuid_v4
    open_chat_be.DirectMessages.Signature.normalize_message_id open_chat_be.Text.trim
    verify_direct_message_signature
handle_chat_sync-blocked_example =
    handle_chat_sync-blocked malformed_world config table 1000 bob "p2" ("p3" ∷ []) (pulled "x")
      (bad_request "id must be a valid UUID v4.") (kept id_b ∷ []) refl (Memᴰ.tail (Memᴰ.head refl))
      refl

abbrev request : InterServerDmDeleteRequestPayload
request = record {
  message_id = id_b;
  origin_server_peer_id = "p1";
  recipient_public_key = bob;
  replica_peer_ids = "p2" ∷ [];
}

handle_inter_server_delete_request-authority_example :
    (((handle_inter_server_delete_request world config table request "p4"
          (kept id_b ∷ [])).0.deleted
        ≡ true)
      × (table.find_unique id_b
            (handle_inter_server_delete_request world config table request "p4" (kept id_b ∷ [])).1
          ≡ none)
      × IsAuthorized (kept id_b) "p4"
      × (bob ≡ bob))
    ⊎ (((handle_inter_server_delete_request world config table request "p4"
            (kept id_b ∷ [])).0.deleted
          ≡ false)
        × ((handle_inter_server_delete_request world config table request "p4" (kept id_b ∷ [])).1
            ≡ kept id_b ∷ [])
        × ¬ (IsAuthorized (kept id_b) "p4" × (bob ≡ bob)))
unfolding table
handle_inter_server_delete_request-authority_example =
    handle_inter_server_delete_request-authority world config table request "p4" (kept id_b)
      (kept id_b ∷ []) refl

handle_inter_server_delete_request-others_example :
    table.find_unique id_a
      (handle_inter_server_delete_request world config table request "p1"
        (kept id_b ∷ kept id_a ∷ [])).1
    ≡ table.find_unique id_a (kept id_b ∷ kept id_a ∷ [])
handle_inter_server_delete_request-others_example =
    handle_inter_server_delete_request-others world config table request "p1" id_a
      (kept id_b ∷ kept id_a ∷ []) (ne_of_beq id_b id_a refl)

handle_inter_server_replicate_request-signed_example :
    (table.find_unique id_a
        (handle_inter_server_replicate_request world config table 1000
          (pulled id_a)
          "p1"
          (kept id_b ∷ [])).1
      ≡ table.find_unique id_a (kept id_b ∷ []))
    ⊎ ((send_time : ℕ) × (id_a ≡ id_a)
        × (verify_direct_message_signature signatures alice (signed_part (pulled id_a)) ≡ ok true)
        × (table.find_unique id_a
              (handle_inter_server_replicate_request world config table 1000
                (pulled id_a)
                "p1"
                (kept id_b ∷ [])).1
            ≡ some (replica_row world config table 1000 send_time "p1" (pulled id_a))))
handle_inter_server_replicate_request-signed_example =
    handle_inter_server_replicate_request-signed world config table 1000 (pulled id_a) "p1" id_a
      (kept id_b ∷ [])

abbrev pull_request : InterServerDmPullRequestPayload
pull_request = record { cursor = none; limit = 0; public_key = bob }

abbrev any_before : String → String → Bool
any_before a b = true

handle_inter_server_pull_request-complete_example :
    Perm
      (map
        (map_to_inter_server_replicate_payload world config)
        (asked_rows world config table any_before 1000 pull_request (kept id_b ∷ [])))
      (handle_inter_server_pull_request world config table any_before 1000 pull_request
        (kept id_b ∷ [])).items
unfolding handle_inter_server_pull_request open_chat_be.Prelude.sort pull_limit pull_rows table
handle_inter_server_pull_request-complete_example =
    handle_inter_server_pull_request-complete world config table any_before 1000 pull_request
      (kept id_b ∷ []) refl

-- Every server stores what it is sent.
handle_chat_message_send-replicated_example :
    (c : CheckedSend) × (check_send
        (connected world 2 (λ peer_id payload. some true))
        config
        alice
        body
      ≡ ok c)
    × (let request =
          quorum_request
            (connected world 2 (λ peer_id payload. some true))
            config
            (queued_row (connected world 2 (λ peer_id payload. some true)) config 1000 alice c)
            c.replica_peer_ids in
        let stored =
          (replicate_direct_message_to_peers "p1" 2
            (λ peer_id payload. some true)
            request).acknowledged_peer_ids in
        NoDup stored
        × (1 ≤ length stored)
        × (min 2 (length (remote_peer_ids "p1" 2 (λ peer_id payload. some true) request))
            ≤ length stored)
        × ((peer_id : String)
            → contains stored peer_id ≡ true
            → (peer_id ≢ "p1")
              × (contains request.peer_ids peer_id ≡ true)
              × (has_stored "p1" 2 (λ peer_id payload. some true) request peer_id ≡ true)))
unfolding add add_all check_send contains handle_chat_message_send map_chat_message_accepted_event
    open_chat_be.DirectMessages.Send.extend_to_live
    open_chat_be.DirectMessages.Send.live_delivery_peer_ids
    open_chat_be.DirectMessages.Send.replicate_payload open_chat_be.DirectMessages.Send.send_checked
    open_chat_be.DirectMessages.Send.send_events
    open_chat_be.DirectMessages.Signature.build_direct_message_signature_payload
    open_chat_be.DirectMessages.Signature.create_direct_message_hash
    open_chat_be.DirectMessages.Signature.create_direct_message_signature_message
    open_chat_be.DirectMessages.Signature.is_uuid_v4
    open_chat_be.DirectMessages.Signature.normalize_algorithm
    open_chat_be.DirectMessages.Signature.normalize_message
    open_chat_be.DirectMessages.Signature.normalize_message_hash
    open_chat_be.DirectMessages.Signature.normalize_message_id
    open_chat_be.DirectMessages.Signature.normalize_send_time
    open_chat_be.DirectMessages.Signature.parse_chat_message_send_payload
    open_chat_be.DirectMessages.Table.create_expiry_date
    open_chat_be.DirectMessages.Table.map_chat_message_event open_chat_be.Json.get_field
    open_chat_be.PeerNetwork.Quorum.ask_peers open_chat_be.Realtime.Signature.normalize_public_key
    open_chat_be.Realtime.Signature.normalize_signature open_chat_be.Text.is_hex_digit
    open_chat_be.Text.is_hex_text open_chat_be.Text.trim open_chat_be.Text.with_hex_prefix
    peers_json queued_row quorum_request replicate_direct_message_to_peers table to_set
    verify_direct_message_signature
handle_chat_message_send-replicated_example =
    handle_chat_message_send-replicated world 2 (λ peer_id payload. some true) config table 1000
      alice body accepted (kept id_b ∷ []) (omega arith) refl
