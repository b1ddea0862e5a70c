-- ===== src/Realtime/Gateway.antt =====
-- src/modules/realtime/realtime.gateway.ts: what a node does when a socket connects, authenticates,
-- acknowledges, answers a ping or goes away. A handler runs to its end before the next one starts;
-- the diagnostic traces are left out.
pub mod Admission
pub mod Node
use open_chat_be.Prelude.{
  Bool, List, Map, Option, String, [], erase, false, if◌then◌else◌, lookup, nat_eq, none, not, some,
  string_eq, to_set, true, ℕ, ◌++◌, ◌==◌, ◌∷◌,
}
use open_chat_be.Results.{
  Result, ok, err, Exception, bad_request, unauthorized, not_found, service_unavailable, conflict,
  failure, ◌>>=◌, ◌>>◌, require,
}
use open_chat_be.Json.{Value, text, get_field, is_object}
use open_chat_be.Realtime.Types.{
  AuthChallengeRecord, AuthConnectPayload, RealtimeSessionRecord, ReliableEnvelope, Output, close,
  connected, error,
}
use open_chat_be.Realtime.Redis.{StringCommands, SessionStore, HashCommands}
use open_chat_be.Realtime.Keys.{create_user_room_name, create_session_pending_key}
use open_chat_be.Realtime.Signature.{parse_auth_connect_payload, require_text}
use open_chat_be.Realtime.Challenges.{ChallengeWorld, consume_and_verify_challenge}
use open_chat_be.Realtime.Connection.{
  Connections, ConnectionState, register_client, mark_authenticated, get_authenticated_state,
  has_local_session, send_json, register_pong, close_session_clients, remove_client,
}
use open_chat_be.Realtime.Rooms.{
  LocalRooms, clear_local_memberships, restore_session_rooms, replace_session_rooms,
  touch_session_rooms,
}
use open_chat_be.Realtime.Sessions.{
  SessionConfig, SessionResult, create_or_restore_session, touch_session, mark_session_disconnected,
  get_session_ttl_ms,
}
use open_chat_be.Realtime.Delivery.{
  Delivery, DeliveryConfig, RetryTimer, replay_pending_for_session, acknowledge,
}

-- What a node keeps: its sockets, its rooms, its retry timers, and the store it shares.
pub record Gateway (S : Type 0) : Type 0 where
  pub connections : Connections
  pub rooms : LocalRooms
  pub retry_timers : Map String RetryTimer
  pub redis : S

pub record GatewayConfig : Type 0 where
  pub challenge_ttl_seconds : ℕ
  pub sessions : SessionConfig
  pub delivery : DeliveryConfig

pub record DeliveryAckPayload : Type 0 where
  pub event_id : String
  pub received_at : String

abbrev pub message_of : Exception → String
message_of (bad_request m) = m
message_of (unauthorized m) = m
message_of (not_found m) = m
message_of (service_unavailable m) = m
message_of (conflict m) = m
message_of (failure m) = m

abbrev pub is_client_error : Exception → Bool
is_client_error (bad_request m) = true
is_client_error (unauthorized m) = true
is_client_error e = false

-- `payload.status !== 'received'` throws
abbrev require_received : Value → Result (Unit {0})
require_received (text s) = require (s == "received") (bad_request "status must be \"received\".")
require_received v = err (bad_request "status must be \"received\".")

unfoldable pub parse_delivery_ack_payload : Value → Result DeliveryAckPayload
parse_delivery_ack_payload body = do
  require (is_object body) (bad_request "delivery.ack payload must be an object.")
  event_id ← require_text (get_field "event_id" body) "event_id is required."
  require_received (get_field "status" body)
  received_at ← require_text (get_field "received_at" body) "received_at is required."
  ok (record { event_id = event_id; received_at = received_at })

module _ {P : Type 0} (is_open : ℕ → Bool) where
  unfoldable pub send_system_error : ℕ → String → List (Output P)
  send_system_error client message = send_json is_open client (error message)

  unfoldable pub handle_auth_error : ℕ → Exception → List (Output P)
  handle_auth_error client e =
      send_system_error client (message_of e)
      ++ (if is_client_error e
          then close client 4401 (message_of e)
          else close client 1011 "Internal realtime error")
        ∷ []

  -- The socket's state, or what a socket that is not authenticated is told.
  unfoldable pub authenticated_or_closed :
      ℕ → Connections → Result ConnectionState × List (Output P)
  authenticated_or_closed client c = elim (get_authenticated_state client c) [
    | some s ↦ (ok s, [])
    | none ↦ (
      err (unauthorized "Socket is not authenticated."),
      send_system_error client "Socket is not authenticated."
          ++ close client 4401 "Socket is not authenticated" ∷ [],
    )
  ]

abbrev pub delivery_of : {S : Type 0} → Gateway S → Delivery S
delivery_of g = record { retry_timers = g.retry_timers; redis = g.redis }

module _ {S P : Type 0} (challenges : StringCommands S AuthChallengeRecord)
    (store : SessionStore S RealtimeSessionRecord) (pending : HashCommands S (ReliableEnvelope P))
    (world : ChallengeWorld) (config : GatewayConfig) (is_open : ℕ → Bool) where
  abbrev session_ttl : ℕ
  session_ttl = get_session_ttl_ms store config.sessions

  unfoldable pub handle_connection : ℕ → String → Gateway S → Gateway S
  handle_connection client socket_id g = record g {
    connections = register_client client socket_id g.connections;
  }

  -- The firing of an authentication timer that was not cleared.
  unfoldable pub handle_auth_timeout : ℕ → Gateway S → Gateway S × List (Output P)
  handle_auth_timeout timer g = elim (lookup timer g.connections.timers) [
    | none ↦ (g, [])
    | some client ↦ (
      record g { connections = record g.connections { timers = erase timer g.connections.timers } },
      send_system_error is_open client "Authentication timed out."
          ++ close client 4401 "Authentication timed out" ∷ [],
    )
  ]

  -- The times to live of what a session has in the store.
  abbrev touch_all : String → S → S
  touch_all session_id s =
      touch_session_rooms store.sets session_ttl session_id
        (pending.pexpire (create_session_pending_key session_id) config.delivery.session_ttl_ms s)

  abbrev leave_session : ℕ → String → Gateway S → Gateway S
  leave_session now session_id g = record g {
    rooms = clear_local_memberships session_id g.rooms;
    redis =
        (mark_session_disconnected store config.sessions now session_id
          (touch_all session_id g.redis)).1;
  }

  -- The session of the state of a socket that is gone, unless it has another socket here.
  abbrev leave_last : ℕ → Option String → Gateway S → Gateway S
  leave_last now none g = g
  leave_last now (some session_id) g =
      if session_id == ""
      then g
      else if has_local_session session_id g.connections
      then g
      else leave_session now session_id g

  unfoldable pub handle_disconnect : ℕ → ℕ → Gateway S → Gateway S
  handle_disconnect now client g =
      let (c, state) = remove_client client g.connections in
      let g' = record g { connections = c } in
      elim state [ none ↦ g' | some s ↦ leave_last now s.session_id g' ]

  abbrev rooms_to_join : String → List String → List String
  rooms_to_join default_user_room [] = default_user_room ∷ []
  rooms_to_join default_user_room (room ∷ rooms) = to_set (default_user_room ∷ room ∷ rooms)

  abbrev close_previous : Option String → Connections → List (Output P)
  close_previous none c = []
  close_previous (some session_id) c =
      close_session_clients is_open session_id 4001 "Session resumed by a new connection" c

  -- The socket is in the session: its rooms are restored, and what it missed is sent.
  unfoldable pub enter_session :
      ℕ → String → SessionResult → Gateway S → Gateway S × List (Output P)
  enter_session client public_key result g =
      let session_id = result.session.session_id in
      let c = mark_authenticated client session_id public_key g.connections in
      let (r1, restored_rooms) =
        if result.restored
        then restore_session_rooms store.sets session_ttl c session_id g.rooms g.redis
        else (g.rooms, []) in
      let rooms = rooms_to_join (create_user_room_name public_key) restored_rooms in
      let (r2, s2, _) =
        replace_session_rooms store.sets session_ttl c session_id rooms false r1 g.redis in
      let d : Delivery S = record {
        retry_timers = g.retry_timers;
        redis = touch_all session_id s2;
      } in
      let (d', replayed) =
        replay_pending_for_session pending config.delivery c is_open session_id d in
      (
        record { connections = c; rooms = r2; retry_timers = d'.retry_timers; redis = d'.redis },
        send_json is_open client (connected public_key result.restored rooms session_id)
            ++ replayed,
      )

  -- `create_or_restore_session` after a challenge that was met; the last component names the users
  -- whose queues are to be synchronized.
  unfoldable pub admit :
      ℕ → String → ℕ → AuthConnectPayload → Gateway S → Gateway S × List (Output P) × List String
  admit now new_id client payload g =
      let closed = close_previous payload.last_session_id g.connections in
      let (result, s) =
        create_or_restore_session store config.sessions now new_id payload.public_key
          payload.last_session_id g.redis in
      let (g', out) = enter_session client payload.public_key result (record g { redis = s }) in
      (g', closed ++ out, payload.public_key ∷ [])

  unfoldable pub answer_challenge :
      ℕ
      → String
      → ℕ
      → AuthConnectPayload
      → Result AuthChallengeRecord × S
      → Gateway S
      → Gateway S × List (Output P) × List String
  answer_challenge now new_id client payload (err e, s) g =
      (record g { redis = s }, handle_auth_error is_open client e, [])
  answer_challenge now new_id client payload (ok r, s) g =
      admit now new_id client payload (record g { redis = s })

  unfoldable pub handle_auth_connect :
      ℕ → String → ℕ → Value → Gateway S → Gateway S × List (Output P) × List String
  handle_auth_connect now new_id client body g =
      elim (get_authenticated_state client g.connections) [
        | some s ↦ (g, send_system_error is_open client "Socket is already authenticated.", [])
        | none ↦ elim (parse_auth_connect_payload body) [
          | err e ↦ (g, handle_auth_error is_open client e, [])
          | ok payload ↦
              answer_challenge now new_id client payload
                (consume_and_verify_challenge challenges world config.challenge_ttl_seconds now
                  payload g.redis)
                g
        ]
      ]

  abbrev acknowledged : Option String → DeliveryAckPayload → Gateway S → Gateway S
  acknowledged none payload g = g
  acknowledged (some session_id) payload g =
      let d = (acknowledge pending config.delivery session_id payload.event_id (delivery_of g)).0 in
      record g { retry_timers = d.retry_timers; redis = d.redis }

  unfoldable pub handle_delivery_ack : ℕ → Value → Gateway S → Gateway S × List (Output P)
  handle_delivery_ack client body g =
      let (state, told) = authenticated_or_closed is_open client g.connections in
      elim state [
        | err e ↦ (g, told ++ send_system_error is_open client (message_of e))
        | ok s ↦ elim (parse_delivery_ack_payload body) [
          | err e ↦ (g, told ++ send_system_error is_open client (message_of e))
          | ok payload ↦ (acknowledged s.session_id payload g, told)
        ]
      ]

  abbrev touch_of : ℕ → Option String → Gateway S → Gateway S
  touch_of now none g = g
  touch_of now (some session_id) g = record g {
    redis = (touch_session store config.sessions now session_id (touch_all session_id g.redis)).1;
  }

  unfoldable pub handle_pong : ℕ → ℕ → Gateway S → Gateway S
  handle_pong now client g =
      let g' = record g { connections = register_pong client g.connections } in
      elim (get_authenticated_state client g'.connections) [
        | none ↦ g'
        | some s ↦ touch_of now s.session_id g'
      ]
