-- ===== src/Realtime/Rooms/Mirror.antt =====
-- The two local maps are each other's mirror image, whatever is done to them.
use open_chat_be.Prelude.{
  Bool, Bool-cases, HasNoEmpty, List, Map, Option, Option-cases, String, [], add_to-HasNoEmpty, ap,
  arith, contains, contains-add_to, contains-drop_all, contains-drop_from, drop_all-HasNoEmpty,
  drop_from-HasNoEmpty, erase, false, inl, inr, lookup, lookup-erase, nat_eq, none, not, or_else,
  some, string_eq, sym, true, ◌&&◌, ◌==◌, ◌∙◌, ◌∷◌, ◌≡◌,
}
use open_chat_be.Realtime.Connection.{Connections, has_local_session}
use open_chat_be.Realtime.Types.{RoomControlMessage, join, leave, replace}
use open_chat_be.Realtime.Rooms.{
  get_local_rooms, sync_local_rooms, clear_local_memberships, get_local_session_ids,
  remove_local_room_membership, add_rooms, add_local_room_membership, handle_room_control_message,
  LocalRooms, named,
}

pub record IsMirrored (r : LocalRooms) : Type 0 where
  pub mirrored :
      (room session : String)
      → contains (get_local_session_ids room r) session ≡ contains (get_local_rooms session r) room
  pub rooms_nonempty : HasNoEmpty r.local_room_sessions
  pub sessions_nonempty : HasNoEmpty r.local_session_rooms

pub add_local_room_membership-IsMirrored :
    (is_local : Bool) (session_id room_name : String) (r : LocalRooms)
    → IsMirrored r
    → IsMirrored (add_local_room_membership is_local session_id room_name r)
unfolding add_local_room_membership
add_local_room_membership-IsMirrored false session_id room_name r v = v
add_local_room_membership-IsMirrored true session_id room_name r v = record {
  mirrored = λ room session. ground (
    arith,
    v.mirrored room session,
    contains-add_to room_name session_id r.local_room_sessions room session,
    contains-add_to session_id room_name r.local_session_rooms session room,
  );
  rooms_nonempty = add_to-HasNoEmpty room_name session_id r.local_room_sessions v.rooms_nonempty;
  sessions_nonempty =
      add_to-HasNoEmpty session_id room_name r.local_session_rooms v.sessions_nonempty;
}

pub remove_local_room_membership-IsMirrored :
    (session_id room_name : String) (r : LocalRooms)
    → IsMirrored r
    → IsMirrored (remove_local_room_membership session_id room_name r)
unfolding remove_local_room_membership
remove_local_room_membership-IsMirrored session_id room_name r v = record {
  mirrored = λ room session. ground (
    arith,
    v.mirrored room session,
    contains-drop_from room_name session_id r.local_room_sessions room session,
    contains-drop_from session_id room_name r.local_session_rooms session room,
  );
  rooms_nonempty = drop_from-HasNoEmpty room_name session_id r.local_room_sessions v.rooms_nonempty;
  sessions_nonempty =
      drop_from-HasNoEmpty session_id room_name r.local_session_rooms v.sessions_nonempty;
}

erase-HasNoEmpty :
    (k : String) (m : Map String (List String)) → HasNoEmpty m → HasNoEmpty (erase k m)
erase-HasNoEmpty k m h j = ground (arith, h j, lookup-erase k j m)

-- What is left in the rooms when a session is cleared.
pub ids-clear :
    (session_id room session : String) (r : LocalRooms)
    → IsMirrored r
    → contains (get_local_session_ids room (clear_local_memberships session_id r)) session
      ≡ (not (session_id == session) && contains (get_local_session_ids room r) session)
unfolding clear_local_memberships
ids-clear session_id room session r v =
    elim (Option-cases (lookup session_id r.local_session_rooms)) [
      | inl e ↦
          unfold contains in
          ground (arith, e, v.mirrored room session, string_eq.beq_iff session_id session)
      | inr (rooms, e) ↦ ground (
        arith,
        e,
        v.mirrored room session,
        string_eq.beq_iff session_id session,
        contains-drop_all session_id rooms r.local_room_sessions room session,
      )
    ]

pub rooms-clear :
    (session_id room session : String) (r : LocalRooms)
    → contains (get_local_rooms session (clear_local_memberships session_id r)) room
      ≡ (not (session_id == session) && contains (get_local_rooms session r) room)
unfolding clear_local_memberships contains
rooms-clear session_id room session r =
    elim (Option-cases (lookup session_id r.local_session_rooms)) [
      | inl e ↦ ground (arith, e, string_eq.beq_iff session_id session)
      | inr (rooms, e) ↦ ground (arith, e, lookup-erase session_id session r.local_session_rooms)
    ]

clear_local_memberships-nonempty :
    (session_id : String) (r : LocalRooms)
    → HasNoEmpty r.local_room_sessions
    → HasNoEmpty r.local_session_rooms
    → HasNoEmpty (clear_local_memberships session_id r).local_room_sessions
      × HasNoEmpty (clear_local_memberships session_id r).local_session_rooms
clear_local_memberships-nonempty session_id r h k =
    elim (Option-cases (lookup session_id r.local_session_rooms)) [
      | inl e ↦ unfold clear_local_memberships in rw (e, clear_local_memberships) (h, k)
      | inr (rooms, e) ↦
          unfold clear_local_memberships in
          rw (e, clear_local_memberships)
            (
              drop_all-HasNoEmpty session_id rooms r.local_room_sessions h,
              erase-HasNoEmpty session_id r.local_session_rooms k,
            )
    ]

pub clear_local_memberships-IsMirrored :
    (session_id : String) (r : LocalRooms)
    → IsMirrored r
    → IsMirrored (clear_local_memberships session_id r)
clear_local_memberships-IsMirrored session_id r v =
    let (h, k) =
      clear_local_memberships-nonempty session_id r v.rooms_nonempty v.sessions_nonempty in
    record {
      mirrored = λ room session.
          ids-clear session_id room session r v
          ∙ ap (λ b. not (session_id == session) && b) (v.mirrored room session)
          ∙ sym (rooms-clear session_id room session r);
      rooms_nonempty = h;
      sessions_nonempty = k;
    }

add_rooms-IsMirrored :
    (is_local : Bool) (session_id : String) (rooms : List String) (r : LocalRooms)
    → IsMirrored r
    → IsMirrored (add_rooms is_local session_id rooms r)
unfolding add_rooms
add_rooms-IsMirrored is_local session_id [] r v = v
add_rooms-IsMirrored is_local session_id (room ∷ rooms) r v =
    add_rooms-IsMirrored is_local session_id rooms _
      (add_local_room_membership-IsMirrored is_local session_id room r v)

pub sync_local_rooms-IsMirrored :
    (is_local : Bool) (session_id : String) (rooms : List String) (r : LocalRooms)
    → IsMirrored r
    → IsMirrored (sync_local_rooms is_local session_id rooms r)
unfolding sync_local_rooms
sync_local_rooms-IsMirrored is_local session_id rooms r v =
    add_rooms-IsMirrored is_local session_id rooms _
      (clear_local_memberships-IsMirrored session_id r v)

named-IsMirrored :
    (o : Option String) (act : String → LocalRooms) (r : LocalRooms)
    → IsMirrored r
    → ((room : String) → IsMirrored (act room))
    → IsMirrored (named o act r)
named-IsMirrored none act r v h = v
named-IsMirrored (some room) act r v h = elim (Bool-cases (room == "")) [
  | inl e ↦ rw e v
  | inr e ↦ rw e (h room)
]

-- A message from another node, of any kind, keeps the two maps each other's mirror image.
pub handle_room_control_message-IsMirrored :
    (c : Connections) (m : RoomControlMessage) (r : LocalRooms)
    → IsMirrored r
    → IsMirrored (handle_room_control_message c m r)
unfolding handle_room_control_message
handle_room_control_message-IsMirrored c (replace rooms s) r v =
    elim (Bool-cases (has_local_session s c)) [
      | inl e ↦ rw e (sync_local_rooms-IsMirrored true s (or_else rooms []) r v)
      | inr e ↦ rw e v
    ]
handle_room_control_message-IsMirrored c (join room s) r v =
    elim (Bool-cases (has_local_session s c)) [
      | inl e ↦
          rw e
            (named-IsMirrored room _ r v (λ n. add_local_room_membership-IsMirrored true s n r v))
      | inr e ↦ rw e v
    ]
handle_room_control_message-IsMirrored c (leave room s) r v =
    elim (Bool-cases (has_local_session s c)) [
      | inl e ↦
          rw e (named-IsMirrored room _ r v (λ n. remove_local_room_membership-IsMirrored s n r v))
      | inr e ↦ rw e v
    ]
