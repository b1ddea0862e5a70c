-- ===== src/Realtime/Rooms/Shared.antt =====
-- The rooms of a session in Redis and on the node that holds its socket are the same.
use open_chat_be.Prelude.{
  Bool, List, String, [], arith, beq_refl, contains, contains-add_to, contains-drop_from,
  contains-to_set, nat_eq, string_eq, sym, to_set, true, ℕ, ◌∙◌, ◌∷◌, ◌≡◌, ◌≢◌,
}
use open_chat_be.Realtime.Connection.{Connections, has_local_session}
use open_chat_be.Realtime.Types.{RoomControlMessage}
use open_chat_be.Realtime.Redis.{SetCommands}
use open_chat_be.Realtime.Rooms.{
  remove_local_room_membership, create_session_rooms_key, add_local_room_membership,
  handle_room_control_message, get_local_rooms, add_room_to_session, replace_session_rooms,
  restore_session_rooms, remove_room_from_session, LocalRooms, named, write_rooms,
}
use open_chat_be.Realtime.Rooms.Mirror.{IsMirrored}
use open_chat_be.Realtime.Rooms.Sync.{rooms-sync_local_rooms}

-- The messages of a channel, handled in turn.
pub handle_all : Connections → List RoomControlMessage → LocalRooms → LocalRooms
handle_all c [] r = r
handle_all c (m ∷ ms) r = handle_all c ms (handle_room_control_message c m r)

module _ {S : Type 0} (redis : SetCommands S) (ttl : ℕ) where
  smembers-write_rooms :
      (key : String) (rooms : List String) (s : S) (room : String)
      → contains (redis.smembers key (write_rooms redis ttl key rooms s)) room ≡ contains rooms room
  unfolding contains
  smembers-write_rooms key [] s room =
      ground (arith, redis.smembers-del key key s room, beq_refl key)
  smembers-write_rooms key (x ∷ rooms) s room = ground (
    arith,
    redis.smembers-del key key s room,
    beq_refl key,
    redis.smembers-pexpire key key ttl (redis.sadd key (x ∷ rooms) (redis.del key s)),
    redis.smembers-sadd key key (x ∷ rooms) (redis.del key s) room,
  )

  -- After a replacement on the node `c`, Redis holds exactly the given rooms.
  pub smembers-replace_session_rooms :
      (c : Connections) (session_id : String) (rooms : List String) (publish : Bool)
      (r : LocalRooms) (s : S) (room : String)
      → contains
          (redis.smembers
            (create_session_rooms_key session_id)
            (replace_session_rooms redis ttl c session_id rooms publish r s).1)
          room
        ≡ contains rooms room
  unfolding replace_session_rooms
  smembers-replace_session_rooms c session_id rooms publish r s room =
      smembers-write_rooms (create_session_rooms_key session_id) (to_set rooms) s room
      ∙ contains-to_set rooms room

  -- The rooms of a session on a node that holds its socket are those in Redis.
  abbrev pub Agrees : String → LocalRooms → S → Type 0
  Agrees session_id r s =
      (room : String)
      → contains (get_local_rooms session_id r) room
        ≡ contains (redis.smembers (create_session_rooms_key session_id) s) room

  module _ (session_id : String) (c : Connections) (r : LocalRooms) (s : S)
      (is_local : has_local_session session_id c ≡ true) (v : IsMirrored r) where
    pub replace_session_rooms-Agrees :
        (rooms : List String) (publish : Bool)
        → let (r', s', ms) = replace_session_rooms redis ttl c session_id rooms publish r s in
          Agrees session_id r' s'
    unfolding replace_session_rooms
    replace_session_rooms-Agrees rooms publish room = rw is_local (
        rooms-sync_local_rooms true session_id (to_set rooms) r room v
        ∙ sym (smembers-write_rooms (create_session_rooms_key session_id) (to_set rooms) s room))

    pub restore_session_rooms-Agrees :
        Agrees session_id (restore_session_rooms redis ttl c session_id r s).0 s
    unfolding restore_session_rooms
    restore_session_rooms-Agrees room = rw is_local (
        rooms-sync_local_rooms true session_id
          (redis.smembers (create_session_rooms_key session_id) s) r room v)

    pub add_room_to_session-Agrees :
        (room_name : String) (publish : Bool)
        → Agrees session_id r s
        → let (r', s', ms) = add_room_to_session redis ttl c session_id room_name publish r s in
          Agrees session_id r' s'
    unfolding add_room_to_session add_local_room_membership contains
    add_room_to_session-Agrees room_name publish h room = rw is_local (
        ground (
          arith,
          h room,
          beq_refl session_id,
          beq_refl (create_session_rooms_key session_id),
          redis.smembers-pexpire (create_session_rooms_key session_id)
              (create_session_rooms_key session_id) ttl
              (redis.sadd (create_session_rooms_key session_id) (room_name ∷ []) s),
          redis.smembers-sadd (create_session_rooms_key session_id)
              (create_session_rooms_key session_id) (room_name ∷ []) s room,
          contains-add_to session_id room_name r.local_session_rooms session_id room,
        ))

    pub remove_room_from_session-Agrees :
        (room_name : String) (publish : Bool)
        → Agrees session_id r s
        → let (r', s', ms) = remove_room_from_session redis ttl session_id room_name publish r s in
          Agrees session_id r' s'
    unfolding remove_room_from_session remove_local_room_membership contains
    remove_room_from_session-Agrees room_name publish h room = ground (
      arith,
      h room,
      beq_refl session_id,
      beq_refl (create_session_rooms_key session_id),
      redis.smembers-srem (create_session_rooms_key session_id)
          (create_session_rooms_key session_id) (room_name ∷ []) s room,
      contains-drop_from session_id room_name r.local_session_rooms session_id room,
    )

  -- The same of a room that is joined or left on another node, where the rooms agreed before.
  pub add_room_to_session-converges :
      (session_id room_name : String) (c other : Connections) (r r_other : LocalRooms) (s : S)
      → has_local_session session_id other ≡ true
      → room_name ≢ ""
      → Agrees session_id r_other s
      → let (r', s', ms) = add_room_to_session redis ttl c session_id room_name true r s in
        Agrees session_id (handle_all other ms r_other) s'
  unfolding add_room_to_session handle_all handle_room_control_message add_local_room_membership
      contains
  add_room_to_session-converges session_id room_name c other r r_other s is_local named h room =
      rw is_local (
        ground (
          arith,
          h room,
          string_eq.beq_iff room_name "",
          beq_refl session_id,
          beq_refl (create_session_rooms_key session_id),
          redis.smembers-pexpire (create_session_rooms_key session_id)
              (create_session_rooms_key session_id) ttl
              (redis.sadd (create_session_rooms_key session_id) (room_name ∷ []) s),
          redis.smembers-sadd (create_session_rooms_key session_id)
              (create_session_rooms_key session_id) (room_name ∷ []) s room,
          contains-add_to session_id room_name r_other.local_session_rooms session_id room,
        ))

  pub remove_room_from_session-converges :
      (session_id room_name : String) (other : Connections) (r r_other : LocalRooms) (s : S)
      → has_local_session session_id other ≡ true
      → room_name ≢ ""
      → Agrees session_id r_other s
      → let (r', s', ms) = remove_room_from_session redis ttl session_id room_name true r s in
        Agrees session_id (handle_all other ms r_other) s'
  unfolding remove_room_from_session handle_all handle_room_control_message
      remove_local_room_membership contains
  remove_room_from_session-converges session_id room_name other r r_other s is_local named h room =
      rw is_local (
        ground (
          arith,
          h room,
          string_eq.beq_iff room_name "",
          beq_refl session_id,
          beq_refl (create_session_rooms_key session_id),
          redis.smembers-srem (create_session_rooms_key session_id)
              (create_session_rooms_key session_id) (room_name ∷ []) s room,
          contains-drop_from session_id room_name r_other.local_session_rooms session_id room,
        ))
