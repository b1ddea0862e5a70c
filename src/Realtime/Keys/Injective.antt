-- ===== src/Realtime/Keys/Injective.antt =====
-- Keys of different things are different.
use open_chat_be.Prelude.{String, ap, arith, nat_eq, string_eq, sym, ℕ, ◌∙◌, ◌≡◌, ◌≢◌}
use text.Mathlib.TextLemmas.{append_cancel_right, append_cancel_left}
use open_chat_be.Realtime.Keys.{
  create_session_key, create_auth_challenge_key, create_session_pending_key,
  create_user_sessions_key, create_user_room_name, create_chat_room_name, ◌⧺◌,
}
use Prim.Native.Char.{code}
use text.Mathlib.TextLemmas.{cons-append, append_assoc}

pub create_session_key-injective :
    (a b : String) → create_session_key a ≡ create_session_key b → a ≡ b
unfolding create_session_key
create_session_key-injective a b h = append_cancel_left "realtime:session:" a b h

pub create_auth_challenge_key-injective :
    (a b : String) → create_auth_challenge_key a ≡ create_auth_challenge_key b → a ≡ b
unfolding create_auth_challenge_key
create_auth_challenge_key-injective a b h = append_cancel_left "realtime:challenge:" a b h

pub create_session_pending_key-injective :
    (a b : String) → create_session_pending_key a ≡ create_session_pending_key b → a ≡ b
unfolding create_session_pending_key
create_session_pending_key-injective a b h =
    append_cancel_right a b ":pending" (append_cancel_left "realtime:session:" _ _ h)

pub create_user_sessions_key-injective :
    (a b : String) → create_user_sessions_key a ≡ create_user_sessions_key b → a ≡ b
unfolding create_user_sessions_key
create_user_sessions_key-injective a b h =
    append_cancel_right a b ":sessions" (append_cancel_left "realtime:user:" _ _ h)

pub create_user_room_name-injective :
    (a b : String) → create_user_room_name a ≡ create_user_room_name b → a ≡ b
unfolding create_user_room_name
create_user_room_name-injective a b h = append_cancel_left "user:" a b h

abbrev head_code : String → ℕ
head_code String.[] = 0
head_code (String.◌∷◌ c s) = code c

pub create_user_room_name-ne-chat :
    (a b : String) → create_user_room_name a ≢ create_chat_room_name b
unfolding create_user_room_name create_chat_room_name
create_user_room_name-ne-chat a b h =
    let e : head_code (String.◌∷◌ "u" ("ser:" ⧺ a)) ≡ head_code (String.◌∷◌ "c" ("hat:" ⧺ b)) =
      ap head_code (sym (cons-append "u" "ser:" a) ∙ h ∙ cons-append "c" "hat:" b) in
    absurd (omega arith)

-- The record of a session and the set of the sessions of a user are never under one key.
pub session_key-ne-user_sessions_key :
    (a b : String) → create_session_key a ≢ create_user_sessions_key b
unfolding create_session_key create_user_sessions_key
session_key-ne-user_sessions_key a b h =
    let tails : "session:" ⧺ a ≡ "user:" ⧺ b ⧺ ":sessions" =
      append_cancel_left "realtime:" ("session:" ⧺ a) ("user:" ⧺ b ⧺ ":sessions") (
        sym (append_assoc "realtime:" "session:" a)
        ∙ h
        ∙ append_assoc "realtime:" "user:" (b ⧺ ":sessions")) in
    let e : head_code (String.◌∷◌ "s" ("ession:" ⧺ a))
        ≡ head_code (String.◌∷◌ "u" ("ser:" ⧺ b ⧺ ":sessions")) =
      ap head_code
        (sym (cons-append "s" "ession:" a) ∙ tails ∙ cons-append "u" "ser:" (b ⧺ ":sessions")) in
    absurd (omega arith)
