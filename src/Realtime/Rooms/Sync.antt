-- ===== src/Realtime/Rooms/Sync.antt =====
-- What `sync_local_rooms` leaves in the maps.
use open_chat_be.Prelude.{
  Bool, List, String, [], arith, beq_refl, contains, contains-add_to, if◌then◌else◌, nat_eq,
  string_eq, ◌&&◌, ◌==◌, ◌||◌, ◌∷◌, ◌≡◌,
}
use open_chat_be.Realtime.Rooms.{
  clear_local_memberships, get_local_session_ids, sync_local_rooms, add_local_room_membership,
  add_rooms, get_local_rooms, LocalRooms,
}
use open_chat_be.Realtime.Rooms.Mirror.{ids-clear, sync_local_rooms-IsMirrored, IsMirrored}

ids-add :
    (is_local : Bool) (session_id room_name : String) (r : LocalRooms) (room session : String)
    → contains
        (get_local_session_ids room (add_local_room_membership is_local session_id room_name r))
        session
      ≡ ((is_local && room_name == room && session_id == session)
          || contains (get_local_session_ids room r) session)
unfolding add_local_room_membership
ids-add is_local session_id room_name r room session =
    ground (arith, contains-add_to room_name session_id r.local_room_sessions room session)

ids-add_rooms :
    (is_local : Bool) (session_id : String) (rooms : List String) (r : LocalRooms)
    (room session : String)
    → contains (get_local_session_ids room (add_rooms is_local session_id rooms r)) session ≡ (
        (is_local && session_id == session && contains rooms room)
        || contains (get_local_session_ids room r) session)
unfolding add_rooms contains
ids-add_rooms is_local session_id [] r room session = ground arith
ids-add_rooms is_local session_id (x ∷ rooms) r room session = ground (
  arith,
  ids-add_rooms is_local session_id rooms (add_local_room_membership is_local session_id x r) room
      session,
  ids-add is_local session_id x r room session,
)

-- After a sync a session of this node is in the given rooms and in no other, one of another node
-- is in none, and the other sessions are where they were.
pub ids-sync_local_rooms :
    (is_local : Bool) (session_id : String) (rooms : List String) (r : LocalRooms)
    (room session : String)
    → IsMirrored r
    → contains (get_local_session_ids room (sync_local_rooms is_local session_id rooms r)) session
      ≡ (if session_id == session
          then is_local && contains rooms room
          else contains (get_local_session_ids room r) session)
unfolding sync_local_rooms
ids-sync_local_rooms is_local session_id rooms r room session v = ground (
  arith,
  ids-add_rooms is_local session_id rooms (clear_local_memberships session_id r) room session,
  ids-clear session_id room session r v,
)

pub rooms-sync_local_rooms :
    (is_local : Bool) (session_id : String) (rooms : List String) (r : LocalRooms) (room : String)
    → IsMirrored r
    → contains (get_local_rooms session_id (sync_local_rooms is_local session_id rooms r)) room
      ≡ (is_local && contains rooms room)
rooms-sync_local_rooms is_local session_id rooms r room v = ground (
  arith,
  ids-sync_local_rooms is_local session_id rooms r room session_id v,
  (sync_local_rooms-IsMirrored is_local session_id rooms r v).mirrored room session_id,
  beq_refl session_id,
)
