-- ===== src/Realtime/Rooms.antt =====
-- src/modules/realtime/services/realtime_room.service.ts: which sessions of this node are in which
-- room, in two maps kept on the node and a set kept in Redis for each session.
pub mod Mirror
pub mod Sync
pub mod Shared
use open_chat_be.Prelude.{
  Bool, List, Map, Option, String, [], add_to, bucket, drop_all, drop_from, erase, if◌then◌else◌,
  lookup, nat_eq, none, or_else, some, string_eq, to_set, true, ℕ, ◌==◌, ◌∷◌,
}
use open_chat_be.Realtime.Types.{RoomControlMessage, join, leave, replace}
use open_chat_be.Realtime.Redis.{SetCommands}
use open_chat_be.Realtime.Connection.{Connections, has_local_session}
use open_chat_be.Realtime.Keys.{create_session_rooms_key}

pub record LocalRooms : Type 0 where
  pub local_room_sessions : Map String (List String)
  pub local_session_rooms : Map String (List String)

unfoldable pub clear_local_memberships : String → LocalRooms → LocalRooms
clear_local_memberships session_id r = elim (lookup session_id r.local_session_rooms) [
  | none ↦ r
  | some rooms ↦ record r {
    local_room_sessions = drop_all session_id rooms r.local_room_sessions;
    local_session_rooms = erase session_id r.local_session_rooms;
  }
]

abbrev pub get_local_session_ids : String → LocalRooms → List String
get_local_session_ids room_name r = bucket room_name r.local_room_sessions

abbrev pub get_local_rooms : String → LocalRooms → List String
get_local_rooms session_id r = bucket session_id r.local_session_rooms

unfoldable pub remove_local_room_membership : String → String → LocalRooms → LocalRooms
remove_local_room_membership session_id room_name r = record r {
  local_room_sessions = drop_from room_name session_id r.local_room_sessions;
  local_session_rooms = drop_from session_id room_name r.local_session_rooms;
}

-- `local` is the answer of `has_local_session` for the session.
unfoldable pub add_local_room_membership : Bool → String → String → LocalRooms → LocalRooms
add_local_room_membership is_local session_id room_name r =
    if is_local
    then record r {
      local_room_sessions = add_to room_name session_id r.local_room_sessions;
      local_session_rooms = add_to session_id room_name r.local_session_rooms;
    }
    else r

unfoldable pub add_rooms : Bool → String → List String → LocalRooms → LocalRooms
add_rooms is_local session_id [] r = r
add_rooms is_local session_id (room_name ∷ rooms) r =
    add_rooms is_local session_id rooms (add_local_room_membership is_local session_id room_name r)

unfoldable pub sync_local_rooms : Bool → String → List String → LocalRooms → LocalRooms
unfolding add_rooms
sync_local_rooms is_local session_id rooms r =
    add_rooms is_local session_id rooms (clear_local_memberships session_id r)

-- A room name is given, and is not "".
abbrev pub named : Option String → (String → LocalRooms) → LocalRooms → LocalRooms
named none act r = r
named (some room_name) act r = if room_name == "" then r else act room_name

unfoldable pub handle_room_control_message :
    Connections → RoomControlMessage → LocalRooms → LocalRooms
handle_room_control_message c (replace rooms session_id) r =
    if has_local_session session_id c
    then sync_local_rooms true session_id (or_else rooms []) r
    else r
handle_room_control_message c (join room_name session_id) r =
    if has_local_session session_id c
    then named room_name (λ room. add_local_room_membership true session_id room r) r
    else r
handle_room_control_message c (leave room_name session_id) r =
    if has_local_session session_id c
    then named room_name (λ room. remove_local_room_membership session_id room r) r
    else r

-- The methods that also write to Redis and tell the other nodes.
module _ {S : Type 0} (redis : SetCommands S) (session_ttl_ms : ℕ) where
  open redis use {smembers, sadd, srem, del, pexpire}

  abbrev pub published : Bool → RoomControlMessage → List RoomControlMessage
  published should_publish message = if should_publish then message ∷ [] else []

  abbrev write_rooms : String → List String → S → S
  write_rooms key [] s = del key s
  write_rooms key (room ∷ rooms) s =
      pexpire key session_ttl_ms (sadd key (room ∷ rooms) (del key s))

  unfoldable pub replace_session_rooms :
      Connections
      → String
      → List String
      → Bool
      → LocalRooms
      → S
      → LocalRooms × S × List RoomControlMessage
  replace_session_rooms c session_id rooms should_publish r s = (
    sync_local_rooms (has_local_session session_id c) session_id (to_set rooms) r,
    write_rooms (create_session_rooms_key session_id) (to_set rooms) s,
    published should_publish (replace (some (to_set rooms)) session_id),
  )

  unfoldable pub add_room_to_session :
      Connections
      → String
      → String
      → Bool
      → LocalRooms
      → S
      → LocalRooms × S × List RoomControlMessage
  add_room_to_session c session_id room_name should_publish r s = (
    add_local_room_membership (has_local_session session_id c) session_id room_name r,
    pexpire (create_session_rooms_key session_id) session_ttl_ms
        (sadd (create_session_rooms_key session_id) (room_name ∷ []) s),
    published should_publish (join (some room_name) session_id),
  )

  unfoldable pub remove_room_from_session :
      String → String → Bool → LocalRooms → S → LocalRooms × S × List RoomControlMessage
  remove_room_from_session session_id room_name should_publish r s = (
    remove_local_room_membership session_id room_name r,
    srem (create_session_rooms_key session_id) (room_name ∷ []) s,
    published should_publish (leave (some room_name) session_id),
  )

  unfoldable pub restore_session_rooms :
      Connections → String → LocalRooms → S → LocalRooms × List String
  restore_session_rooms c session_id r s =
      let rooms = smembers (create_session_rooms_key session_id) s in
      (sync_local_rooms (has_local_session session_id c) session_id rooms r, rooms)

  unfoldable pub touch_session_rooms : String → S → S
  touch_session_rooms session_id s = pexpire (create_session_rooms_key session_id) session_ttl_ms s
