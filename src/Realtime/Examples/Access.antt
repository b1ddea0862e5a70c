-- ===== src/Realtime/Examples/Access.antt =====
-- Runs of challenges, sessions and the gateway.
use open_chat_be.Prelude.{
  String, [], add, add_all, add_to, arith, contains, drop_all, drop_from, erase, false, insert,
  lookup, nat_eq, ne_of_beq, none, place, refl, remove, some, sort, string_eq, to_set, true, ◌==◌,
  ◌↔◌, ◌∷◌, ◌≡◌, ◌≢◌, ◌≤◌,
}
use open_chat_be.Results.{ok, err, unauthorized}
use open_chat_be.Json.{Value, text, obj, field, end}
use open_chat_be.Text.{is_hex_text, is_empty}
use open_chat_be.Realtime.Types.{
  AuthChallengeRecord, AuthConnectPayload, RealtimeSessionRecord, active,
}
use open_chat_be.Realtime.Keys.{
  create_auth_challenge_key, create_session_key, create_user_sessions_key,
}
use open_chat_be.Realtime.Signature.{parse_auth_connect_payload, normalize_public_key}
use open_chat_be.Realtime.Signature.Canonical.{parse_auth_connect_payload_sound}
use open_chat_be.Realtime.Challenges.{
  ChallengeWorld, challenge_message, create_auth_challenge_message, consume_and_verify_challenge,
  create_challenge, challenge_record, verify_challenge,
}
use open_chat_be.Realtime.Challenges.Once.{
  consume_and_verify_challenge-once, consume-create_challenge,
}
use open_chat_be.Realtime.Connection.{
  Connections, ConnectionState, empty, register_client, get_authenticated_state, mark_authenticated,
}
use open_chat_be.Realtime.Sessions.{
  get_active_session_ids, SessionConfig, get_session, is_active_of, get_active_session_ids,
  mark_session_disconnected, disconnected_session,
}
use open_chat_be.Realtime.Sessions.Restore.{outcome, create_or_restore_session-foreign}
use open_chat_be.Realtime.Sessions.Active.{active_in, get_active_session_ids-exact}
use open_chat_be.Realtime.Delivery.{DeliveryConfig}
use open_chat_be.Realtime.Gateway.{
  Gateway, GatewayConfig, handle_auth_connect, admit, answer_challenge, enter_session,
}
use open_chat_be.Realtime.Gateway.Admission.{handle_auth_connect-admits}
use open_chat_be.Realtime.Examples.{
  Memory, no_memory, challenge_commands, session_store, pending_commands,
}

abbrev pub alice : String
alice = "0xaaaaaaaaaaaaaaaaaaaaaaaaaaaaaaaaaaaaaaaaaaaaaaaaaaaaaaaaaaaaaaaa"

abbrev pub bob : String
bob = "0xbbbbbbbbbbbbbbbbbbbbbbbbbbbbbbbbbbbbbbbbbbbbbbbbbbbbbbbbbbbbbbbb"

abbrev signature : String
signature =
    "0xcccccccccccccccccccccccccccccccccccccccccccccccccccccccccccccccccccccccccccccccccccccccccccccccccccccccccccccccccccccccccccccccc"

abbrev pub world : ChallengeWorld
world = record {
  to_iso_string = λ ms. "2026-01-01";
  server_public_key = "0xdd";
  sign_message = λ message. "0xee";
  verify = λ given message key. ok (given == signature);
}

abbrev payload_of : String → AuthConnectPayload
payload_of id = record {
  challenge_id = id;
  last_session_id = none;
  public_key = alice;
  signature = signature;
}

abbrev challenge : AuthChallengeRecord
challenge = record {
  challenge_id = "c1";
  created_at = 10;
  expires_at = 60010;
  nonce = "n";
  public_key = alice;
}

abbrev pub challenged : Memory
challenged = record no_memory { challenges = (create_auth_challenge_key "c1", challenge) ∷ [] }

consume_and_verify_challenge-once_example :
    (consume_and_verify_challenge challenge_commands world 60 40
      (payload_of "c1")
      (consume_and_verify_challenge challenge_commands world 60 20
        (payload_of "c1")
        challenged).1).0
    ≡ err (unauthorized "Challenge is invalid, expired, or already used.")
consume_and_verify_challenge-once_example =
    consume_and_verify_challenge-once challenge_commands world 60 20 40 (payload_of "c1")
      (payload_of "c1") challenged refl

consume-create_challenge_example :
    (consume_and_verify_challenge challenge_commands world 60 50000
      (payload_of "c1")
      (create_challenge challenge_commands world 60 10 "c1" "n" alice no_memory).1).0
    ≡ ok (challenge_record challenge_commands world 60 10 "c1" "n" alice)
unfolding create_challenge
consume-create_challenge_example =
    consume-create_challenge challenge_commands world 60 10 50000 "c1" "n" signature alice none
      no_memory (omega arith) refl

abbrev pub config : GatewayConfig
config = record {
  challenge_ttl_seconds = 60;
  sessions = record { node_id = "node-a"; reconnect_grace_ms = 60000 };
  delivery = record {
    ack_timeout_ms = 5000;
    max_retries = 3;
    retry_backoff_ms = 1000 ∷ [];
    session_ttl_ms = 90000;
  };
}

abbrev pub body : Value
body = obj (
    field "challenge_id" (text "c1")
      (field "public_key" (text alice) (field "signature" (text signature) end)))

abbrev before : Gateway Memory
before = record {
  connections = register_client 1 "socket" empty;
  rooms = record { local_room_sessions = []; local_session_rooms = [] };
  retry_timers = [];
  redis = challenged;
}

abbrev after : Gateway Memory
after =
    (handle_auth_connect challenge_commands session_store pending_commands world config
      (λ client. true) 20 "s1" 1 body before).0

abbrev admitted : ConnectionState
admitted = record {
  auth_timeout = none;
  authenticated = true;
  awaiting_pong = false;
  missed_pongs = 0;
  public_key = some alice;
  session_id = some "s1";
  socket_id = "socket";
}

parse_auth_connect_payload_sound_example :
    (is_hex_text 64 130 alice ≡ true)
    × (is_hex_text 128 128 signature ≡ true)
    × (is_empty "c1" ≡ false)
    × ((payload_of "c1").last_session_id ≢ some "")
unfolding parse_auth_connect_payload open_chat_be.Json.get_field open_chat_be.Text.trim
    open_chat_be.Realtime.Signature.normalize_session_id normalize_public_key is_hex_text
    open_chat_be.Text.with_hex_prefix open_chat_be.Realtime.Signature.normalize_signature
parse_auth_connect_payload_sound_example =
    parse_auth_connect_payload_sound body (payload_of "c1") refl

handle_auth_connect-admits_example :
    (payload : AuthConnectPayload) × (r : AuthChallengeRecord) × (parse_auth_connect_payload body
      ≡ ok payload)
    × (some alice ≡ some payload.public_key)
    × (challenge_commands.get (create_auth_challenge_key payload.challenge_id) challenged ≡ some r)
    × (r.public_key ≡ payload.public_key)
    × (20 ≤ r.expires_at)
    × (world.verify payload.signature
          (challenge_message challenge_commands world 60 r)
          payload.public_key
        ≡ ok true)
unfolding admit answer_challenge challenge_commands consume_and_verify_challenge contains
    create_auth_challenge_key create_auth_challenge_message create_session_key
    create_user_sessions_key enter_session get_authenticated_state handle_auth_connect is_hex_text
    mark_authenticated normalize_public_key open_chat_be.Json.get_field open_chat_be.Prelude.add
    open_chat_be.Prelude.add_all open_chat_be.Prelude.add_to open_chat_be.Prelude.drop_all
    open_chat_be.Prelude.drop_from open_chat_be.Prelude.erase open_chat_be.Prelude.insert
    open_chat_be.Prelude.lookup open_chat_be.Prelude.place open_chat_be.Prelude.remove
    open_chat_be.Prelude.sort open_chat_be.Prelude.to_set
    open_chat_be.Realtime.Connection.close_clients
    open_chat_be.Realtime.Connection.close_session_clients
    open_chat_be.Realtime.Connection.get_client_by_session_id
    open_chat_be.Realtime.Connection.has_local_session open_chat_be.Realtime.Connection.send_json
    open_chat_be.Realtime.Delivery.replay_all
    open_chat_be.Realtime.Delivery.replay_pending_for_session
    open_chat_be.Realtime.Delivery.schedule_retry open_chat_be.Realtime.Gateway.handle_auth_error
    open_chat_be.Realtime.Gateway.send_system_error
    open_chat_be.Realtime.Keys.create_session_pending_key
    open_chat_be.Realtime.Keys.create_session_rooms_key
    open_chat_be.Realtime.Keys.create_user_room_name
    open_chat_be.Realtime.Rooms.add_local_room_membership open_chat_be.Realtime.Rooms.add_rooms
    open_chat_be.Realtime.Rooms.clear_local_memberships
    open_chat_be.Realtime.Rooms.replace_session_rooms
    open_chat_be.Realtime.Rooms.restore_session_rooms open_chat_be.Realtime.Rooms.sync_local_rooms
    open_chat_be.Realtime.Rooms.touch_session_rooms
    open_chat_be.Realtime.Sessions.create_or_restore_session
    open_chat_be.Realtime.Signature.normalize_session_id
    open_chat_be.Realtime.Signature.normalize_signature open_chat_be.Text.trim
    open_chat_be.Text.with_hex_prefix parse_auth_connect_payload pending_commands register_client
    session_store verify_challenge
handle_auth_connect-admits_example =
    handle_auth_connect-admits challenge_commands session_store pending_commands world config
      (λ client. true) 20 "s1" 1 body before admitted refl refl

-- A session of Alice on this node, and one of Bob.
abbrev session_of : String → String → RealtimeSessionRecord
session_of id public_key = record {
  connected_at = 5;
  last_seen_at = 5;
  node_id = "node-a";
  public_key = public_key;
  reconnect_expires_at = 60005;
  session_id = id;
  status = active;
}

abbrev seated : Memory
seated = record no_memory {
  sessions =
      (create_session_key "s1", session_of "s1" alice)
      ∷ (create_session_key "s2", session_of "s2" bob)
      ∷ [];
  sets = (create_user_sessions_key alice, "s1" ∷ "s9" ∷ []) ∷ [];
}

create_or_restore_session-foreign_example :
    ((outcome session_store config.sessions 20 "s3" alice (some "s2") seated).0.restored ≡ false)
    × ((outcome session_store config.sessions 20 "s3" alice (some "s2") seated).0.session.session_id
        ≡ "s3")
    × (get_session session_store config.sessions "s2"
          (outcome session_store config.sessions 20 "s3" alice (some "s2") seated).1
        ≡ some (session_of "s2" bob))
unfolding create_session_key open_chat_be.Prelude.lookup session_store
create_or_restore_session-foreign_example =
    create_or_restore_session-foreign session_store config.sessions 20 "s3" alice (some "s2") seated
      "s2" (session_of "s2" bob) refl refl (ne_of_beq bob alice refl) (ne_of_beq "s3" "s2" refl)

get_active_session_ids-exact_example :
    let (ids, after) = active_in session_store config.sessions alice seated in
    ((contains ids "s1" ≡ true) ↔ (
      (contains (session_store.sets.smembers (create_user_sessions_key alice) seated) "s1" ≡ true)
      × (r : RealtimeSessionRecord) × (get_session session_store config.sessions "s1" seated
          ≡ some r)
      × (r.public_key ≡ alice)
      × (r.status ≡ active)))
    × (contains (session_store.sets.smembers (create_user_sessions_key alice) after) "s1"
        ≡ contains ids "s1")
    × (get_session session_store config.sessions "s1" after
        ≡ get_session session_store config.sessions "s1" seated)
get_active_session_ids-exact_example =
    get_active_session_ids-exact session_store config.sessions alice seated "s1"

-- Of the two sessions in the set the one without a record is stale.
only_s1 : (active_in session_store config.sessions alice seated).0 ≡ "s1" ∷ []
unfolding create_session_key open_chat_be.Prelude.lookup session_store get_active_session_ids
    create_user_sessions_key open_chat_be.Prelude.to_set open_chat_be.Prelude.add
    open_chat_be.Prelude.contains
only_s1 = refl
