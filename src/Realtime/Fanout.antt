-- ===== src/Realtime/Fanout.antt =====
-- src/modules/realtime/services/realtime_fanout.service.ts and realtime.service.ts: sending to a
-- room, on this node and by way of the others. The sessions of a room are served in turn.
pub mod Reach
use open_chat_be.Prelude.{
  Bool, List, String, [], if◌then◌else◌, length, ltb, nat_eq, some, string_eq, true, ℕ, ◌++◌, ◌==◌,
  ◌∷◌,
}
use open_chat_be.Realtime.Types.{
  ReliableEnvelope, ReliableEnvelopeInput, RoomFanoutMessage, Output, RoomControlMessage,
  RealtimeSessionRecord,
}
use open_chat_be.Realtime.Redis.{HashCommands, SessionStore}
use open_chat_be.Realtime.Connection.{Connections}
use open_chat_be.Realtime.Delivery.{Delivery, DeliveryConfig, deliver_to_session, create_envelope}
use open_chat_be.Realtime.Rooms.{
  LocalRooms, get_local_session_ids, add_room_to_session, remove_room_from_session,
}
use open_chat_be.Realtime.Sessions.{SessionConfig, get_active_session_ids, get_session_ttl_ms}
use open_chat_be.Realtime.Keys.{create_user_room_name, create_chat_room_name}

module _ {S P : Type 0} (commands : HashCommands S (ReliableEnvelope P)) (config : DeliveryConfig)
    (node_id : String) (c : Connections) (is_open : ℕ → Bool) where
  unfoldable pub deliver_all :
      List String → ReliableEnvelope P → Delivery S → Delivery S × List (Output P)
  deliver_all [] e d = (d, [])
  deliver_all (session_id ∷ rest) e d =
      let (d', now) = deliver_to_session commands config c is_open session_id e d in
      let (d'', later) = deliver_all rest e d' in (d'', now ++ later)

  unfoldable pub deliver_to_local_room :
      String → ReliableEnvelope P → LocalRooms → Delivery S → Delivery S × List (Output P)
  unfolding deliver_all
  deliver_to_local_room room_name e r d = deliver_all (get_local_session_ids room_name r) e d

  -- The envelope goes to the sessions of this node, and then to the channel of the room.
  unfoldable pub emit_to_room :
      ℕ
      → String
      → String
      → ReliableEnvelopeInput P
      → LocalRooms
      → Delivery S
      → Delivery S × List (Output P) × RoomFanoutMessage P
  emit_to_room now new_id room_name input r d =
      let e = create_envelope config now new_id input in
      let (d', out) = deliver_to_local_room room_name e r d in
      (d', out, record { envelope = e; origin_node_id = node_id; room_name = room_name })

  unfoldable pub handle_room_fanout :
      RoomFanoutMessage P → LocalRooms → Delivery S → Delivery S × List (Output P)
  handle_room_fanout message r d =
      if message.origin_node_id == node_id
      then (d, [])
      else deliver_to_local_room message.room_name message.envelope r d

  unfoldable pub emit_to_user :
      ℕ
      → String
      → String
      → ReliableEnvelopeInput P
      → LocalRooms
      → Delivery S
      → Delivery S × List (Output P) × RoomFanoutMessage P
  emit_to_user now new_id public_key input r d =
      emit_to_room now new_id (create_user_room_name public_key) input r d

  unfoldable pub emit_to_chat_room :
      ℕ
      → String
      → String
      → ReliableEnvelopeInput P
      → LocalRooms
      → Delivery S
      → Delivery S × List (Output P) × RoomFanoutMessage P
  emit_to_chat_room now new_id room_id input r d =
      emit_to_room now new_id (create_chat_room_name room_id)
        (record input { room_id = some room_id }) r d

module _ {S : Type 0} (store : SessionStore S RealtimeSessionRecord) (config : SessionConfig)
    (c : Connections) where
  abbrev ttl : ℕ
  ttl = get_session_ttl_ms store config

  unfoldable pub join_all :
      List String → String → LocalRooms → S → LocalRooms × S × List RoomControlMessage
  join_all [] room r s = (r, s, [])
  join_all (id ∷ ids) room r s =
      let (r', s', now) = add_room_to_session store.sets ttl c id room true r s in
      let (r'', s'', later) = join_all ids room r' s' in (r'', s'', now ++ later)

  unfoldable pub leave_all :
      List String → String → LocalRooms → S → LocalRooms × S × List RoomControlMessage
  leave_all [] room r s = (r, s, [])
  leave_all (id ∷ ids) room r s =
      let (r', s', now) = remove_room_from_session store.sets ttl id room true r s in
      let (r'', s'', later) = leave_all ids room r' s' in (r'', s'', now ++ later)

  unfoldable pub join_chat_room :
      String → String → LocalRooms → S → LocalRooms × S × List RoomControlMessage
  unfolding join_all
  join_chat_room public_key room_id r s =
      let (ids, s') = get_active_session_ids store config public_key s in
      join_all ids (create_chat_room_name room_id) r s'

  unfoldable pub leave_chat_room :
      String → String → LocalRooms → S → LocalRooms × S × List RoomControlMessage
  unfolding leave_all
  leave_chat_room public_key room_id r s =
      let (ids, s') = get_active_session_ids store config public_key s in
      leave_all ids (create_chat_room_name room_id) r s'

  unfoldable pub has_active_session : String → S → Bool × S
  has_active_session public_key s =
      let (ids, s') = get_active_session_ids store config public_key s in (ltb 0 (length ids), s')
