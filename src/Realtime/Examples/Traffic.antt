-- ===== src/Realtime/Examples/Traffic.antt =====
-- Runs of the delivery of envelopes to the sockets of a node.
use open_chat_be.Prelude.{
  All, Bool, IsSortedBy, List, String, [], add, add_to, arith, contains, false, if◌then◌else◌,
  insert, is_some, leb, lookup, map, nat_eq, ne_of_beq, none, refl, some, string_eq, true, ℕ, ◌∷◌,
  ◌≡◌,
}
use mathlib.Core.List.{Perm, Memᴰ}
use open_chat_be.Realtime.Types.{
  ReliableEnvelope, ReliableEnvelopeInput, RoomFanoutMessage, send, envelope,
}
use open_chat_be.Realtime.Keys.{create_session_pending_key}
use open_chat_be.Realtime.Connection.{
  send_json, Connections, ConnectionState, empty, register_client, mark_authenticated,
  get_client_by_session_id, beat,
}
use open_chat_be.Realtime.Connection.Heartbeat.{is_stale, silent, silent-is_stale}
use open_chat_be.Realtime.Delivery.{
  deliver_to_session, Delivery, DeliveryConfig, replay_pending_for_session, sent_before,
  acknowledge,
}
use open_chat_be.Realtime.Delivery.Retry.{pending, timer, fire}
use open_chat_be.Realtime.Delivery.Acknowledge.{acked, acknowledge-stops}
use open_chat_be.Realtime.Delivery.Replay.{replay_pending_for_session-sends}
use open_chat_be.Realtime.Rooms.{LocalRooms, get_local_session_ids}
use open_chat_be.Realtime.Fanout.{deliver_to_local_room, deliver_all, handle_room_fanout}
use open_chat_be.Realtime.Fanout.Reach.{IsDelivery, handle_room_fanout-reach}
use open_chat_be.Realtime.Examples.{Memory, no_memory, pending_commands}

abbrev config : DeliveryConfig
config = record {
  ack_timeout_ms = 5000;
  max_retries = 3;
  retry_backoff_ms = 1000 ∷ 2000 ∷ [];
  session_ttl_ms = 90000;
}

-- Socket 1 belongs to the session "s1".
abbrev sockets : Connections
sockets = mark_authenticated 1 "s1" "0xaa" (register_client 1 "socket" empty)

abbrev all_open : ℕ → Bool
all_open client = true

abbrev letter : String → ℕ → ReliableEnvelope String
letter id sent_at = record {
  ack_timeout_ms = 5000;
  attempt = 1;
  event_id = id;
  payload = "hello";
  requires_ack = true;
  room_id = none;
  sent_at = sent_at;
  type = "chat.message";
}

abbrev waiting : Delivery Memory
waiting = record {
  retry_timers = [];
  redis = record no_memory {
    pending =
        (create_session_pending_key "s1", ("e1", letter "e1" 20) ∷ ("e0", letter "e0" 10) ∷ [])
        ∷ [];
  };
}

acknowledge-stops_example :
    (pending pending_commands config sockets all_open "s1" "e1"
        (acked pending_commands config sockets all_open "s1" "e1" waiting)
      ≡ none)
    × (timer pending_commands config sockets all_open "s1" "e1"
          (acked pending_commands config sockets all_open "s1" "e1" waiting)
        ≡ none)
    × ((acknowledge pending_commands config "s1" "e1" waiting).1
        ≡ is_some (pending pending_commands config sockets all_open "s1" "e1" waiting))
    × ((fire pending_commands config sockets all_open "s1" "e1"
          (acked pending_commands config sockets all_open "s1" "e1" waiting)).1
        ≡ [])
    × (pending pending_commands config sockets all_open "s1" "e1"
          (fire pending_commands config sockets all_open "s1" "e1"
            (acked pending_commands config sockets all_open "s1" "e1" waiting)).0
        ≡ none)
acknowledge-stops_example =
    acknowledge-stops pending_commands config sockets all_open "s1" "e1" waiting

replay_pending_for_session-sends_example :
    (es : List (ReliableEnvelope String)) × ((replay_pending_for_session pending_commands config
        sockets all_open "s1" waiting).1
      ≡ (if true then map (λ e. send 1 (envelope e)) es else []))
    × Perm (pending_commands.hgetall (create_session_pending_key "s1") waiting.redis) es
    × IsSortedBy (sent_before pending_commands config) es
    × ((replay_pending_for_session pending_commands config sockets all_open "s1" waiting).0.redis
        ≡ waiting.redis)
unfolding get_client_by_session_id mark_authenticated open_chat_be.Prelude.add
    open_chat_be.Prelude.add_to open_chat_be.Prelude.contains open_chat_be.Prelude.insert
    open_chat_be.Prelude.lookup register_client
replay_pending_for_session-sends_example =
    replay_pending_for_session-sends pending_commands config sockets all_open "s1" 1 waiting refl

abbrev rooms : LocalRooms
rooms = record {
  local_room_sessions = ("chat:r", "s1" ∷ "s2" ∷ []) ∷ [];
  local_session_rooms = ("s1", "chat:r" ∷ []) ∷ ("s2", "chat:r" ∷ []) ∷ [];
}

abbrev fanout_message : RoomFanoutMessage String
fanout_message = record {
  envelope = letter "e2" 30;
  origin_node_id = "node-b";
  room_name = "chat:r";
}

handle_room_fanout-reach_example :
    let out =
      (handle_room_fanout pending_commands config "node-a" sockets all_open fanout_message rooms
        waiting).1 in
    let ids = get_local_session_ids "chat:r" rooms in
    All (IsDelivery pending_commands config "node-a" sockets all_open (letter "e2" 30) ids) out
    × ((id : String) (k : ℕ)
        → contains ids id ≡ true
        → get_client_by_session_id id sockets ≡ some k
        → all_open k ≡ true
        → Memᴰ (send k (envelope (letter "e2" 30))) out)
handle_room_fanout-reach_example =
    handle_room_fanout-reach pending_commands config "node-a" sockets all_open fanout_message rooms
      waiting (ne_of_beq "node-b" "node-a" refl)

-- The session "s1" has a socket here, and "s2" has none.
sent_once :
    (handle_room_fanout pending_commands config "node-a" sockets all_open fanout_message rooms
      waiting).1
    ≡ send 1 (envelope (letter "e2" 30)) ∷ []
unfolding handle_room_fanout deliver_to_local_room get_client_by_session_id mark_authenticated
    open_chat_be.Prelude.add open_chat_be.Prelude.add_to open_chat_be.Prelude.contains
    open_chat_be.Prelude.insert open_chat_be.Prelude.lookup register_client deliver_all
    deliver_to_session send_json
sent_once = refl

abbrev input : ReliableEnvelopeInput String
input = record {
  ack_timeout_ms = none;
  event_id = none;
  payload = "hello";
  requires_ack = none;
  room_id = none;
  type = "chat.message";
}

abbrev seated : ConnectionState
seated = record {
  auth_timeout = none;
  authenticated = true;
  awaiting_pong = false;
  missed_pongs = 0;
  public_key = some "0xaa";
  session_id = some "s1";
  socket_id = "socket";
}

silent-is_stale_example :
    is_stale (beat {P = String} 2 true 1 (silent String 2 1 true 2 seated)).1 ≡ leb 2 2
silent-is_stale_example = silent-is_stale String 2 1 true 2 seated (omega arith) (refl, refl, refl)
