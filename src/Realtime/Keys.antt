-- ===== src/Realtime/Keys.antt =====
-- src/modules/realtime/utils/realtime_keys.util.ts and realtime_room.util.ts: the names of keys,
-- channels and rooms.
pub mod Injective
use open_chat_be.Prelude.{String, nat_eq, string_eq, ◌++◌}
use Prim.Native.String

-- `a + b` on texts
infixr 60 ◌⧺◌
abbrev pub ◌⧺◌ : String → String → String
a ⧺ b = String.◌++◌ a b

unfoldable pub create_auth_challenge_key : String → String
create_auth_challenge_key challenge_id = "realtime:challenge:" ⧺ challenge_id

unfoldable pub create_session_key : String → String
create_session_key session_id = "realtime:session:" ⧺ session_id

unfoldable pub create_session_rooms_key : String → String
create_session_rooms_key session_id = "realtime:session:" ⧺ session_id ⧺ ":rooms"

unfoldable pub create_session_pending_key : String → String
create_session_pending_key session_id = "realtime:session:" ⧺ session_id ⧺ ":pending"

unfoldable pub create_room_fanout_channel : String → String
create_room_fanout_channel room_name = "realtime:fanout:room:" ⧺ room_name

unfoldable pub create_user_sessions_key : String → String
create_user_sessions_key public_key = "realtime:user:" ⧺ public_key ⧺ ":sessions"

unfoldable pub create_user_room_name : String → String
create_user_room_name public_key = "user:" ⧺ public_key

unfoldable pub create_chat_room_name : String → String
create_chat_room_name room_id = "chat:" ⧺ room_id
