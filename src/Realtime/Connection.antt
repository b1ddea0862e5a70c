-- ===== src/Realtime/Connection.antt =====
-- src/modules/realtime/services/realtime_connection.service.ts: the sockets of this node and the
-- sessions that they belong to. `is_open` is `readyState === OPEN`, which the socket library keeps.
pub mod Consistency
pub mod Heartbeat
pub mod Timers
pub mod Beats
use open_chat_be.Prelude.{
  Bool, List, Map, Option, String, [], add_to, bucket, drop_from, erase, false, if◌then◌else◌,
  insert, leb, length, lookup, ltb, nat_eq, none, not, some, string_eq, suc, true, ℕ, ◌&&◌, ◌++◌,
  ◌+◌, ◌==◌, ◌∷◌,
}
use open_chat_be.Realtime.Types.{Output, Frame, send, ping, close, terminate}

pub record ConnectionState : Type 0 where
  pub auth_timeout : Option ℕ
  pub authenticated : Bool
  pub awaiting_pong : Bool
  pub missed_pongs : ℕ
  pub public_key : Option String
  pub session_id : Option String
  pub socket_id : String

-- `timers` are the authentication timers that the event loop still holds, each with its socket.
pub record Connections : Type 0 where
  pub client_states : Map ℕ ConnectionState
  pub session_clients : Map String (List ℕ)
  pub timers : Map ℕ ℕ
  pub next_timer : ℕ
  pub heartbeat_running : Bool

abbrev pub empty : Connections
empty = record {
  client_states = [];
  session_clients = [];
  timers = [];
  next_timer = 0;
  heartbeat_running = false;
}

-- A text that is present and not "".
abbrev pub is_truthy : Option String → Bool
is_truthy none = false
is_truthy (some s) = not (s == "")

-- `clearTimeout`, under the test that the handle is not null
pub clear_timeout : Option ℕ → Map ℕ ℕ → Map ℕ ℕ
clear_timeout none timers = timers
clear_timeout (some t) timers = erase t timers

abbrev fresh_state : ℕ → String → ConnectionState
fresh_state timer socket_id = record {
  auth_timeout = some timer;
  authenticated = false;
  awaiting_pong = false;
  missed_pongs = 0;
  public_key = none;
  session_id = none;
  socket_id = socket_id;
}

unfoldable pub register_client : ℕ → String → Connections → Connections
register_client client socket_id c = record c {
  client_states = insert client (fresh_state c.next_timer socket_id) c.client_states;
  timers = insert c.next_timer client c.timers;
  next_timer = suc c.next_timer;
}

-- The sockets of a session, `[]` where the map has none.
abbrev pub members : Connections → String → List ℕ
members c session_id = bucket session_id c.session_clients

abbrev pub authenticated_state : String → String → ConnectionState → ConnectionState
authenticated_state session_id public_key s = record s {
  auth_timeout = none;
  authenticated = true;
  public_key = some public_key;
  session_id = some session_id;
}

unfoldable pub mark_authenticated : ℕ → String → String → Connections → Connections
unfolding clear_timeout
mark_authenticated client session_id public_key c = elim (lookup client c.client_states) [
  | none ↦ c
  | some s ↦ record c {
    timers = clear_timeout s.auth_timeout c.timers;
    client_states = insert client (authenticated_state session_id public_key s) c.client_states;
    session_clients = add_to session_id client c.session_clients;
  }
]

abbrev pub is_authenticated : ConnectionState → Bool
is_authenticated s = s.authenticated && is_truthy s.public_key && is_truthy s.session_id

unfoldable pub get_authenticated_state : ℕ → Connections → Option ConnectionState
get_authenticated_state client c = elim (lookup client c.client_states) [
  | none ↦ none
  | some s ↦ if is_authenticated s then some s else none
]

unfoldable pub has_local_session : String → Connections → Bool
has_local_session session_id c = ltb 0 (length (members c session_id))

unfoldable pub get_client_by_session_id : String → Connections → Option ℕ
get_client_by_session_id session_id c = elim (members c session_id) [
  | [] ↦ none
  | client ∷ rest ↦ some client
]

unfoldable pub send_json : {P : Type 0} → (ℕ → Bool) → ℕ → Frame P → List (Output P)
send_json is_open client payload = if is_open client then send client payload ∷ [] else []

-- The body of the loop of the heartbeat, for one socket.
unfoldable pub beat :
    {P : Type 0} → ℕ → Bool → ℕ → ConnectionState → ConnectionState × List (Output P)
beat missed_pong_limit open_now client s =
    if not s.authenticated
    then (s, [])
    else if s.awaiting_pong && leb missed_pong_limit (s.missed_pongs + 1)
    then (record s { missed_pongs = s.missed_pongs + 1 }, terminate client ∷ [])
    else (
      record s {
        missed_pongs = if s.awaiting_pong then s.missed_pongs + 1 else s.missed_pongs;
        awaiting_pong = true;
      },
      if open_now then ping client ∷ [] else [],
    )

unfoldable pub beat_all :
    {P : Type 0} → ℕ → (ℕ → Bool) → Map ℕ ConnectionState → Map ℕ ConnectionState × List (Output P)
beat_all limit is_open [] = ([], [])
beat_all limit is_open ((client, s) ∷ m) =
    let (s', now) = beat limit (is_open client) client s in
    let (m', later) = beat_all limit is_open m in ((client, s') ∷ m', now ++ later)

unfoldable pub start_heartbeat : Connections → Connections
start_heartbeat c = record c { heartbeat_running = true }

-- One firing of the interval, which exists once the heartbeat was started.
unfoldable pub heartbeat_tick :
    {P : Type 0} → ℕ → (ℕ → Bool) → Connections → Connections × List (Output P)
heartbeat_tick limit is_open c =
    let (states, out) = beat_all limit is_open c.client_states in
    if c.heartbeat_running then (record c { client_states = states }, out) else (c, [])

unfoldable pub register_pong : ℕ → Connections → Connections
register_pong client c = elim (lookup client c.client_states) [
  | none ↦ c
  | some s ↦ record c {
    client_states =
        insert client (record s { awaiting_pong = false; missed_pongs = 0 }) c.client_states;
  }
]

unfoldable pub close_clients : {P : Type 0} → (ℕ → Bool) → ℕ → String → List ℕ → List (Output P)
close_clients is_open code reason [] = []
close_clients is_open code reason (client ∷ rest) =
    (if is_open client then close client code reason ∷ [] else [])
    ++ close_clients is_open code reason rest

unfoldable pub close_session_clients :
    {P : Type 0} → (ℕ → Bool) → String → ℕ → String → Connections → List (Output P)
close_session_clients is_open session_id code reason c =
    close_clients is_open code reason (members c session_id)

abbrev pub drop_session_client : ℕ → Option String → Map String (List ℕ) → Map String (List ℕ)
drop_session_client client none m = m
drop_session_client client (some session_id) m =
    if session_id == "" then m else drop_from session_id client m

unfoldable pub remove_client : ℕ → Connections → Connections × Option ConnectionState
unfolding clear_timeout
remove_client client c = elim (lookup client c.client_states) [
  | none ↦ (c, none)
  | some s ↦ (
    record c {
      timers = clear_timeout s.auth_timeout c.timers;
      session_clients = drop_session_client client s.session_id c.session_clients;
      client_states = erase client c.client_states;
    },
    some s,
  )
]

clear_all_timers : Map ℕ ConnectionState → Map ℕ ℕ → Map ℕ ℕ
clear_all_timers [] timers = timers
clear_all_timers ((client, s) ∷ m) timers = clear_all_timers m (clear_timeout s.auth_timeout timers)

abbrev clients_of : Map ℕ ConnectionState → List ℕ
clients_of [] = []
clients_of ((client, s) ∷ m) = client ∷ clients_of m

unfoldable pub on_module_destroy :
    {P : Type 0} → (ℕ → Bool) → Connections → Connections × List (Output P)
unfolding clear_all_timers
on_module_destroy is_open c = (
  record c { heartbeat_running = false; timers = clear_all_timers c.client_states c.timers },
  close_clients is_open 1012 "Server shutting down" (clients_of c.client_states),
)
