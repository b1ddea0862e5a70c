-- ===== src/Realtime/Examples/Places.antt =====
-- Runs of the two pairs of maps that a node keeps: sockets and sessions, sessions and rooms.
use open_chat_be.Prelude.{
  [], add, add_to, contains, false, insert, lookup, nat_eq, ne_of_beq, none, refl, some, string_eq,
  true, ◌∷◌,
}
use open_chat_be.Realtime.Connection.{
  Connections, ConnectionState, empty, register_client, mark_authenticated, get_authenticated_state,
  remove_client,
}
use open_chat_be.Realtime.Connection.Consistency.{
  IsConsistent, empty-IsConsistent, register_client-IsConsistent, mark_authenticated-IsConsistent,
}
use open_chat_be.Realtime.Connection.Timers.{
  AreTimersSound, register_client-AreTimersSound, mark_authenticated-AreTimersSound,
}
use open_chat_be.Realtime.Rooms.{LocalRooms, sync_local_rooms, replace_session_rooms}
use open_chat_be.Realtime.Rooms.Mirror.{IsMirrored}
use open_chat_be.Realtime.Rooms.Shared.{Agrees, replace_session_rooms-Agrees}
use open_chat_be.Realtime.Examples.{Memory, no_memory, set_commands}

abbrev registered : Connections
registered = register_client 1 "socket" empty

registered-IsConsistent : IsConsistent registered
unfolding lookup
registered-IsConsistent = register_client-IsConsistent 1 "socket" empty refl empty-IsConsistent

-- Socket 1 belongs to the session "s1".
abbrev sockets : Connections
sockets = mark_authenticated 1 "s1" "0xaa" registered

sockets-IsConsistent : IsConsistent sockets
unfolding get_authenticated_state lookup register_client insert
sockets-IsConsistent =
    mark_authenticated-IsConsistent 1 "s1" "0xaa" registered (ne_of_beq "s1" "" refl)
      (ne_of_beq "0xaa" "" refl) refl registered-IsConsistent

abbrev seated : ConnectionState
seated = record {
  auth_timeout = none;
  authenticated = true;
  awaiting_pong = false;
  missed_pongs = 0;
  public_key = some "0xaa";
  session_id = some "s1";
  socket_id = "socket";
}

sockets-AreTimersSound : AreTimersSound sockets
unfolding lookup
sockets-AreTimersSound =
    mark_authenticated-AreTimersSound 1 "s1" "0xaa" registered
      (register_client-AreTimersSound 1 "socket" empty refl (λ t k h. absurd (cc h)))

abbrev no_rooms : LocalRooms
no_rooms = record { local_room_sessions = []; local_session_rooms = [] }

no_rooms-IsMirrored : IsMirrored no_rooms
unfolding lookup contains
no_rooms-IsMirrored = record {
  mirrored = λ room session. refl;
  rooms_nonempty = λ k. cc;
  sessions_nonempty = λ k. cc;
}

abbrev some_rooms : LocalRooms
some_rooms = sync_local_rooms true "s1" ("chat:a" ∷ "chat:b" ∷ []) no_rooms

-- What the store and the node of the socket have after the rooms were replaced there.
abbrev replaced : LocalRooms × Memory
replaced =
    let (r, s, ms) =
      replace_session_rooms set_commands 90000 sockets "s1" ("chat:c" ∷ []) true no_rooms
        no_memory in
    (r, s)

replaced-Agrees : Agrees set_commands 90000 "s1" replaced.0 replaced.1
unfolding contains insert lookup mark_authenticated add add_to
    open_chat_be.Realtime.Connection.has_local_session register_client
replaced-Agrees =
    replace_session_rooms-Agrees set_commands 90000 "s1" sockets no_rooms no_memory refl
      no_rooms-IsMirrored ("chat:c" ∷ []) true
