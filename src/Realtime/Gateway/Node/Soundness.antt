-- ===== src/Realtime/Gateway/Node/Soundness.antt =====
-- The invariant of a node holds in every state that it reaches.
use open_chat_be.Prelude.{
  Bool, List, Option-cases, String, [], arith, contains, erase, inl, inr, lookup, nat_eq, none,
  refl, string_eq, ℕ, ◌∷◌, ◌≡◌,
}
use open_chat_be.Json.{Value}
use open_chat_be.Realtime.Types.{AuthChallengeRecord, RealtimeSessionRecord, ReliableEnvelope}
use open_chat_be.Realtime.Redis.{StringCommands, SessionStore, HashCommands}
use open_chat_be.Realtime.Challenges.{ChallengeWorld}
use open_chat_be.Realtime.Connection.{
  Connections, start_heartbeat, register_client, register_pong, get_authenticated_state,
  has_local_session,
}
use open_chat_be.Realtime.Connection.Consistency.{
  empty-IsConsistent, register_client-IsConsistent, register_pong-IsConsistent,
}
use open_chat_be.Realtime.Connection.Timers.{register_client-AreTimersSound}
use open_chat_be.Realtime.Connection.Beats.{
  heartbeat_tick-IsConsistent, heartbeat_tick-AreTimersSound, register_pong-AreTimersSound,
  erase_timer-IsConsistent, erase_timer-AreTimersSound,
}
use open_chat_be.Realtime.Rooms.{LocalRooms, add_room_to_session, remove_room_from_session}
use open_chat_be.Realtime.Rooms.Mirror.{
  handle_room_control_message-IsMirrored, add_local_room_membership-IsMirrored,
  remove_local_room_membership-IsMirrored,
}
use open_chat_be.Realtime.Sessions.{get_active_session_ids}
use open_chat_be.Realtime.Keys.{create_chat_room_name}
use open_chat_be.Realtime.Fanout.{join_all, leave_all, join_chat_room, leave_chat_room}
use open_chat_be.Realtime.Gateway.{
  Gateway, GatewayConfig, handle_connection, handle_auth_timeout, handle_pong, handle_delivery_ack,
}
use open_chat_be.Realtime.Gateway.Node.{
  Event, connection, auth_timeout, auth_connect, delivery_ack, pong, disconnect, heartbeat_start,
  heartbeat, retry_timeout, room_control, room_fanout, room_emit, chat_join, chat_leave, other_node,
  handle, initial, IsPossible, Reach, start, next,
}
use open_chat_be.Realtime.Gateway.Node.Housed.{
  IsHoused, heartbeat_tick-IsHoused, handle_room_control_message-IsHoused,
  add_local_room_membership-IsHoused, remove_local_room_membership-IsHoused,
}
use open_chat_be.Realtime.Gateway.Node.Entry.{
  IsSound, IsSoundNode, KeepsSessions, handle_auth_connect-IsSoundNode,
  handle_disconnect-IsSoundNode,
}

-- Another test of readiness, another store, or another timer of a retry: the invariant is of the
-- sockets and the rooms only.
register_client-IsSound :
    (client : ℕ) (socket_id : String) (c : Connections) (r : LocalRooms)
    → lookup client c.client_states ≡ none
    → IsSound c r
    → IsSound (register_client client socket_id c) r
register_client-IsSound client socket_id c r new v = record {
  consistent = register_client-IsConsistent client socket_id c new v.consistent;
  timers = register_client-AreTimersSound client socket_id c new v.timers;
  mirrored = v.mirrored;
  housed = unfold register_client has_local_session in v.housed;
}

register_pong-IsHoused :
    (client : ℕ) (c : Connections) (r : LocalRooms)
    → IsHoused c r
    → IsHoused (register_pong client c) r
unfolding register_pong has_local_session
register_pong-IsHoused client c r h room session there = ground (arith, h room session there)

register_pong-IsSound :
    (client : ℕ) (c : Connections) (r : LocalRooms)
    → IsSound c r
    → IsSound (register_pong client c) r
register_pong-IsSound client c r v = record {
  consistent = register_pong-IsConsistent client c v.consistent;
  timers = register_pong-AreTimersSound client c v.timers;
  mirrored = v.mirrored;
  housed = register_pong-IsHoused client c r v.housed;
}

start_heartbeat-IsSound :
    (c : Connections) (r : LocalRooms) → IsSound c r → IsSound (start_heartbeat c) r
start_heartbeat-IsSound c r v = record {
  consistent =
      unfold start_heartbeat in
      record {
        linked = v.consistent.linked;
        nonempty = v.consistent.nonempty;
        whole = v.consistent.whole;
      };
  timers = unfold start_heartbeat in v.timers;
  mirrored = v.mirrored;
  housed = unfold start_heartbeat has_local_session in v.housed;
}

erase_timer-IsSound :
    (timer : ℕ) (c : Connections) (r : LocalRooms)
    → IsSound c r
    → IsSound (record c { timers = erase timer c.timers }) r
erase_timer-IsSound timer c r v = record {
  consistent = erase_timer-IsConsistent timer c v.consistent;
  timers = erase_timer-AreTimersSound timer c v.timers;
  mirrored = v.mirrored;
  housed = unfold has_local_session in v.housed;
}

module _ {S : Type 0} (store : SessionStore S RealtimeSessionRecord) (config : GatewayConfig) where
  join_all-IsSound :
      (c : Connections) (ids : List String) (room : String) (r : LocalRooms) (s : S)
      → IsSound c r
      → IsSound c (join_all store config.sessions c ids room r s).0
  unfolding join_all add_room_to_session
  join_all-IsSound c [] room r s v = v
  join_all-IsSound c (id ∷ ids) room r s v = join_all-IsSound c ids room _ _ (record {
    consistent = v.consistent;
    timers = v.timers;
    mirrored = add_local_room_membership-IsMirrored (has_local_session id c) id room r v.mirrored;
    housed = add_local_room_membership-IsHoused id room c r v.housed;
  })

  leave_all-IsSound :
      (c : Connections) (ids : List String) (room : String) (r : LocalRooms) (s : S)
      → IsSound c r
      → IsSound c (leave_all store config.sessions c ids room r s).0
  unfolding leave_all remove_room_from_session
  leave_all-IsSound c [] room r s v = v
  leave_all-IsSound c (id ∷ ids) room r s v = leave_all-IsSound c ids room _ _ (record {
    consistent = v.consistent;
    timers = v.timers;
    mirrored = remove_local_room_membership-IsMirrored id room r v.mirrored;
    housed = remove_local_room_membership-IsHoused id room c r v.housed;
  })

module _ {S P : Type 0} (challenges : StringCommands S AuthChallengeRecord)
    (store : SessionStore S RealtimeSessionRecord) (pending : HashCommands S (ReliableEnvelope P))
    (world : ChallengeWorld) (config : GatewayConfig) (missed_pong_limit : ℕ)
    (is_open : ℕ → Bool) where
  handle_auth_timeout-IsSoundNode :
      (timer : ℕ) (g : Gateway S)
      → IsSoundNode g
      → IsSoundNode (handle_auth_timeout challenges store pending world config is_open timer g).0
  handle_auth_timeout-IsSoundNode timer g v =
      elim (Option-cases (lookup timer g.connections.timers)) [
        | inl e ↦ unfold handle_auth_timeout in rw (e, handle_auth_timeout) v
        | inr (client, e) ↦
            unfold handle_auth_timeout in
            rw (e, handle_auth_timeout) (erase_timer-IsSound timer g.connections g.rooms v)
      ]

  after-pong :
      (now client : ℕ) (g : Gateway S)
      → let g' = handle_pong challenges store pending world config is_open now client g in
        (g'.connections ≡ register_pong client g.connections) × (g'.rooms ≡ g.rooms)
  unfolding handle_pong
  after-pong now client g =
      elim (Option-cases (get_authenticated_state client (register_pong client g.connections))) [
        | inl e ↦ (cc e, cc e)
        | inr (st, e) ↦ elim (Option-cases st.session_id) [
          | inl n ↦ (cc (e, n), cc (e, n))
          | inr (sid, n) ↦ (cc (e, n), cc (e, n))
        ]
      ]

  after-delivery_ack :
      (client : ℕ) (body : Value) (g : Gateway S)
      → let g' =
          (handle_delivery_ack challenges store pending world config is_open client body g).0 in
        (g'.connections ≡ g.connections) × (g'.rooms ≡ g.rooms)
  unfolding handle_delivery_ack
  after-delivery_ack client body g = (ground arith, ground arith)

  -- Every event keeps the invariant of a node.
  handle-IsSoundNode :
      KeepsSessions challenges store pending world config is_open
      → (e : Event S P) (g : Gateway S)
      → IsPossible challenges store pending world config missed_pong_limit is_open e g
      → IsSoundNode g
      → IsSoundNode (handle challenges store pending world config missed_pong_limit is_open e g)
  unfolding handle handle_connection join_chat_room leave_chat_room
  handle-IsSoundNode keeps (connection client socket_id) g new v =
      register_client-IsSound client socket_id g.connections g.rooms new v
  handle-IsSoundNode keeps (auth_timeout timer) g h v = handle_auth_timeout-IsSoundNode timer g v
  handle-IsSoundNode keeps (auth_connect now new_id client body) g (fresh, keyed) v =
      handle_auth_connect-IsSoundNode challenges store pending world config is_open keeps now new_id
        client body g fresh keyed v
  handle-IsSoundNode keeps (delivery_ack client body) g h v =
      let (same_c, same_r) = after-delivery_ack client body g in rw (same_c, same_r) v
  handle-IsSoundNode keeps (pong now client) g h v =
      let (same_c, same_r) = after-pong now client g in
      rw (same_c, same_r) (register_pong-IsSound client g.connections g.rooms v)
  handle-IsSoundNode keeps (disconnect now client) g h v =
      handle_disconnect-IsSoundNode challenges store pending world config is_open now client g v
  handle-IsSoundNode keeps heartbeat_start g h v = start_heartbeat-IsSound g.connections g.rooms v
  handle-IsSoundNode keeps heartbeat g h v = record {
    consistent = heartbeat_tick-IsConsistent P missed_pong_limit is_open g.connections v.consistent;
    timers = heartbeat_tick-AreTimersSound P missed_pong_limit is_open g.connections v.timers;
    mirrored = v.mirrored;
    housed = heartbeat_tick-IsHoused P missed_pong_limit is_open g.connections g.rooms v.housed;
  }
  handle-IsSoundNode keeps (retry_timeout session_id event_id) g h v = v
  handle-IsSoundNode keeps (room_control message) g h v = record {
    consistent = v.consistent;
    timers = v.timers;
    mirrored = handle_room_control_message-IsMirrored g.connections message g.rooms v.mirrored;
    housed = handle_room_control_message-IsHoused g.connections message g.rooms v.mirrored v.housed;
  }
  handle-IsSoundNode keeps (room_fanout message) g h v = v
  handle-IsSoundNode keeps (room_emit now new_id room_name input) g h v = v
  handle-IsSoundNode keeps (chat_join public_key room_id) g h v =
      join_all-IsSound store config g.connections
        (get_active_session_ids store config.sessions public_key g.redis).0
        (create_chat_room_name room_id) g.rooms
        (get_active_session_ids store config.sessions public_key g.redis).1 v
  handle-IsSoundNode keeps (chat_leave public_key room_id) g h v =
      leave_all-IsSound store config g.connections
        (get_active_session_ids store config.sessions public_key g.redis).0
        (create_chat_room_name room_id) g.rooms
        (get_active_session_ids store config.sessions public_key g.redis).1 v
  handle-IsSoundNode keeps (other_node s) g h v = v

  pub initial-IsSoundNode : (s : S) → IsSoundNode (initial s)
  unfolding lookup contains
  initial-IsSoundNode s = record {
    consistent = empty-IsConsistent;
    timers = λ t k h. cc h;
    mirrored = record {
      mirrored = λ room session. refl;
      rooms_nonempty = λ k. cc;
      sessions_nonempty = λ k. cc;
    };
    housed = λ room session there. cc there;
  }

  -- In every state that a node reaches, the maps of sockets and sessions agree, a running
  -- authentication timer is of a socket that waits, the two room maps mirror each other, and a
  -- session is in a room only while it has a socket here.
  pub Reach-IsSoundNode :
      KeepsSessions challenges store pending world config is_open
      → (s : S) (g : Gateway S)
      → Reach challenges store pending world config missed_pong_limit is_open s g
      → IsSoundNode g
  Reach-IsSoundNode keeps s g start = initial-IsSoundNode s
  Reach-IsSoundNode keeps s g (next before e possible) =
      handle-IsSoundNode keeps e _ possible (Reach-IsSoundNode keeps s _ before)
