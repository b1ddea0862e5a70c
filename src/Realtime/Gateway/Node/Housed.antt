-- ===== src/Realtime/Gateway/Node/Housed.antt =====
-- A session is in the rooms of a node only while it has a socket there.
use open_chat_be.Prelude.{
  Bool, Bool-cases, List, Option, Option-cases, String, [], add, arith, bucket-add_to,
  bucket-drop_from, contains, contains-add_to, contains-drop_from, either, inl, inr, length,
  length-append, lookup, nat_eq, none, or_else, some, string_eq, subst, true, ℕ, ◌==◌, ◌∷◌, ◌≡◌,
  ◌≢◌, ◌≤◌,
}
use open_chat_be.Realtime.Connection.{
  Connections, ConnectionState, has_local_session, members, mark_authenticated, remove_client,
  heartbeat_tick,
}
use open_chat_be.Realtime.Connection.Beats.{heartbeat_tick-keeps}
use open_chat_be.Realtime.Rooms.{
  LocalRooms, get_local_session_ids, sync_local_rooms, add_local_room_membership,
  remove_local_room_membership, handle_room_control_message, named,
}
use open_chat_be.Realtime.Rooms.Mirror.{IsMirrored}
use open_chat_be.Realtime.Rooms.Sync.{ids-sync_local_rooms}
use open_chat_be.Realtime.Types.{RoomControlMessage, join, leave, replace}

abbrev pub IsHoused : Connections → LocalRooms → Type 0
IsHoused c r =
    (room session : String)
    → contains (get_local_session_ids room r) session ≡ true
    → has_local_session session c ≡ true

length-add : (xs : List ℕ) (a : ℕ) → length xs ≤ length (add xs a)
unfolding add
length-add xs a = ground (arith, length-append xs (a ∷ []))

pub has_local-mark :
    (client : ℕ) (session_id public_key session : String) (c : Connections)
    → has_local_session session c ≡ true
    → has_local_session session (mark_authenticated client session_id public_key c) ≡ true
unfolding has_local_session
has_local-mark client session_id public_key session c h =
    elim (Option-cases (lookup client c.client_states)) [
      | inl e ↦ unfold mark_authenticated in ground (arith, e, h)
      | inr (st, e) ↦
          unfold mark_authenticated in
          ground (
            arith,
            e,
            h,
            bucket-add_to session_id client c.session_clients session,
            length-add (members c session_id) client,
            string_eq.beq_iff session_id session,
          )
    ]

pub sync_local_rooms-IsHoused :
    (session_id : String) (rooms : List String) (c : Connections) (r : LocalRooms)
    → IsMirrored r
    → IsHoused c r
    → IsHoused c (sync_local_rooms (has_local_session session_id c) session_id rooms r)
sync_local_rooms-IsHoused session_id rooms c r v h room session there = ground (
  arith,
  h room session,
  there,
  string_eq.beq_iff session_id session,
  ids-sync_local_rooms (has_local_session session_id c) session_id rooms r room session v,
)

pub add_local_room_membership-IsHoused :
    (session_id room_name : String) (c : Connections) (r : LocalRooms)
    → IsHoused c r
    → IsHoused c (add_local_room_membership (has_local_session session_id c) session_id room_name r)
unfolding add_local_room_membership
add_local_room_membership-IsHoused session_id room_name c r h room session there = ground (
  arith,
  h room session,
  there,
  string_eq.beq_iff session_id session,
  contains-add_to room_name session_id r.local_room_sessions room session,
)

pub remove_local_room_membership-IsHoused :
    (session_id room_name : String) (c : Connections) (r : LocalRooms)
    → IsHoused c r
    → IsHoused c (remove_local_room_membership session_id room_name r)
unfolding remove_local_room_membership
remove_local_room_membership-IsHoused session_id room_name c r h room session there = ground (
  arith,
  h room session,
  there,
  contains-drop_from room_name session_id r.local_room_sessions room session,
)

named-IsHoused :
    (c : Connections) (o : Option String) (act : String → LocalRooms) (r : LocalRooms)
    → IsHoused c r
    → ((room : String) → IsHoused c (act room))
    → IsHoused c (named o act r)
named-IsHoused c none act r v h = v
named-IsHoused c (some room) act r v h = either (λ r'. IsHoused c r') (room == "") v (h room)

pub handle_room_control_message-IsHoused :
    (c : Connections) (m : RoomControlMessage) (r : LocalRooms)
    → IsMirrored r
    → IsHoused c r
    → IsHoused c (handle_room_control_message c m r)
unfolding handle_room_control_message
handle_room_control_message-IsHoused c (replace rooms s) r v h =
    elim (Bool-cases (has_local_session s c)) [
      | inl e ↦ ground (arith, e, sync_local_rooms-IsHoused s (or_else rooms []) c r v h)
      | inr e ↦ rw e h
    ]
handle_room_control_message-IsHoused c (join room s) r v h =
    elim (Bool-cases (has_local_session s c)) [
      | inl e ↦ rw e (
          named-IsHoused c room _ r h (λ n.
            subst (λ b. IsHoused c (add_local_room_membership b s n r)) e
              (add_local_room_membership-IsHoused s n c r h)))
      | inr e ↦ rw e h
    ]
handle_room_control_message-IsHoused c (leave room s) r v h =
    elim (Bool-cases (has_local_session s c)) [
      | inl e ↦
          rw e (named-IsHoused c room _ r h (λ n. remove_local_room_membership-IsHoused s n c r h))
      | inr e ↦ rw e h
    ]

pub heartbeat_tick-IsHoused :
    (P : Type 0) (limit : ℕ) (is_open : ℕ → Bool) (c : Connections) (r : LocalRooms)
    → IsHoused c r
    → IsHoused (heartbeat_tick {P = P} limit is_open c).0 r
heartbeat_tick-IsHoused P limit is_open c r h =
    heartbeat_tick-keeps P limit is_open (λ c'. IsHoused c' r) c h (unfold has_local_session in h)

-- A socket that goes is missed in its own session only.
pub has_local-remove :
    (client : ℕ) (session : String) (c : Connections) (st : ConnectionState)
    → lookup client c.client_states ≡ some st
    → st.session_id ≢ some session
    → has_local_session session c ≡ true
    → has_local_session session (remove_client client c).0 ≡ true
unfolding has_local_session remove_client
has_local-remove client session c st e other h = elim (Option-cases st.session_id) [
  | inl n ↦ ground (arith, e, n, h)
  | inr (sid, n) ↦ ground (
    arith,
    e,
    n,
    h,
    other,
    string_eq.beq_iff sid session,
    bucket-drop_from sid client c.session_clients session,
  )
]
