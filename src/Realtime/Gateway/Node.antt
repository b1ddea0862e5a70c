-- ===== src/Realtime/Gateway/Node.antt =====
-- src/modules/realtime: a whole node as a transition system. An event is a call of a handler of the
-- gateway, of a timer, or of a handler of the channels; another node may write to the store between
-- any two.
pub mod Entry
pub mod Housed
pub mod Soundness
use open_chat_be.Prelude.{Bool, String, [], lookup, nat_eq, none, string_eq, ℕ, ◌≡◌, ◌≢◌}
use open_chat_be.Json.{Value}
use open_chat_be.Realtime.Types.{
  AuthChallengeRecord, RealtimeSessionRecord, ReliableEnvelope, ReliableEnvelopeInput,
  RoomControlMessage, RoomFanoutMessage,
}
use open_chat_be.Realtime.Redis.{StringCommands, SessionStore, HashCommands}
use open_chat_be.Realtime.Challenges.{ChallengeWorld}
use open_chat_be.Realtime.Connection.{empty, heartbeat_tick, start_heartbeat}
use open_chat_be.Realtime.Rooms.{LocalRooms, handle_room_control_message}
use open_chat_be.Realtime.Sessions.Restore.{AreKeyed}
use open_chat_be.Realtime.Delivery.{Delivery, handle_retry_timeout}
use open_chat_be.Realtime.Fanout.{emit_to_room, handle_room_fanout, join_chat_room, leave_chat_room}
use open_chat_be.Realtime.Gateway.{
  Gateway, GatewayConfig, delivery_of, handle_connection, handle_auth_timeout, handle_disconnect,
  handle_auth_connect, handle_delivery_ack, handle_pong,
}

-- The clock and fresh identifiers are part of an event; `other_node` is what the store becomes.
pub data Event (S P : Type 0) : Type 0 where
  connection : ℕ → String → Event S P
  auth_timeout : ℕ → Event S P
  auth_connect : ℕ → String → ℕ → Value → Event S P
  delivery_ack : ℕ → Value → Event S P
  pong : ℕ → ℕ → Event S P
  disconnect : ℕ → ℕ → Event S P
  heartbeat_start : Event S P
  heartbeat : Event S P
  retry_timeout : String → String → Event S P
  room_control : RoomControlMessage → Event S P
  room_fanout : RoomFanoutMessage P → Event S P
  room_emit : ℕ → String → String → ReliableEnvelopeInput P → Event S P
  chat_join : String → String → Event S P
  chat_leave : String → String → Event S P
  other_node : S → Event S P

abbrev pub with_delivery : {S : Type 0} → Gateway S → Delivery S → Gateway S
with_delivery g d = record g { retry_timers = d.retry_timers; redis = d.redis }

abbrev with_rooms : {S A : Type 0} → Gateway S → LocalRooms × S × A → Gateway S
with_rooms g (rooms, redis, messages) = record g { rooms = rooms; redis = redis }

abbrev pub initial : {S : Type 0} → S → Gateway S
initial s = record {
  connections = empty;
  rooms = record { local_room_sessions = []; local_session_rooms = [] };
  retry_timers = [];
  redis = s;
}

module _ {S P : Type 0} (challenges : StringCommands S AuthChallengeRecord)
    (store : SessionStore S RealtimeSessionRecord) (pending : HashCommands S (ReliableEnvelope P))
    (world : ChallengeWorld) (config : GatewayConfig) (missed_pong_limit : ℕ)
    (is_open : ℕ → Bool) where
  unfoldable pub handle : Event S P → Gateway S → Gateway S
  handle (connection client socket_id) g =
      handle_connection challenges store pending world config is_open client socket_id g
  handle (auth_timeout timer) g =
      (handle_auth_timeout challenges store pending world config is_open timer g).0
  handle (auth_connect now new_id client body) g =
      (handle_auth_connect challenges store pending world config is_open now new_id client body g).0
  handle (delivery_ack client body) g =
      (handle_delivery_ack challenges store pending world config is_open client body g).0
  handle (pong now client) g =
      handle_pong challenges store pending world config is_open now client g
  handle (disconnect now client) g =
      handle_disconnect challenges store pending world config is_open now client g
  handle heartbeat_start g = record g { connections = start_heartbeat g.connections }
  handle heartbeat g = record g {
    connections = (heartbeat_tick {P = P} missed_pong_limit is_open g.connections).0;
  }
  handle (retry_timeout session_id event_id) g =
      with_delivery g
        (handle_retry_timeout pending config.delivery g.connections is_open session_id event_id
          (delivery_of g)).0
  handle (room_control message) g = record g {
    rooms = handle_room_control_message g.connections message g.rooms;
  }
  handle (room_fanout message) g =
      with_delivery g
        (handle_room_fanout pending config.delivery config.sessions.node_id g.connections is_open
          message g.rooms (delivery_of g)).0
  handle (room_emit now new_id room_name input) g =
      with_delivery g
        (emit_to_room pending config.delivery config.sessions.node_id g.connections is_open now
          new_id room_name input g.rooms (delivery_of g)).0
  handle (chat_join public_key room_id) g =
      with_rooms g
        (join_chat_room store config.sessions g.connections public_key room_id g.rooms g.redis)
  handle (chat_leave public_key room_id) g =
      with_rooms g
        (leave_chat_room store config.sessions g.connections public_key room_id g.rooms g.redis)
  handle (other_node s) g = record g { redis = s }

  -- A socket connects once, a random identifier is not "", and a record lies under the key of its
  -- own session, where every node puts it.
  abbrev pub IsPossible : Event S P → Gateway S → Type 0
  IsPossible (connection client socket_id) g = lookup client g.connections.client_states ≡ none
  IsPossible (auth_connect now new_id client body) g =
      (new_id ≢ "") × AreKeyed store config.sessions g.redis
  IsPossible e g = Unit

  -- The states of a node that has handled some events, one after another.
  pub data Reach (s : S) : Gateway S → Type 0 where
    start : Reach s (initial s)
    next : {g : Gateway S} → Reach s g → (e : Event S P) → IsPossible e g → Reach s (handle e g)
