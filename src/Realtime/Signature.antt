-- ===== src/Realtime/Signature.antt =====
-- src/modules/realtime/utils/realtime_signature.util.ts: the checks on what a client sends when it
-- authenticates.
pub mod Canonical
use open_chat_be.Prelude.{Option, String, if◌then◌else◌, nat_eq, none, some, string_eq}
use open_chat_be.Results.{Result, ok, err, bad_request, ◌>>=◌, ◌>>◌, require}
use open_chat_be.Json.{Value, undefined, null, text, get_field, is_object, as_text}
use open_chat_be.Text.{trim, is_hex_text, with_hex_prefix, has_hex_prefix, drop_two, is_empty}
use open_chat_be.Realtime.Types.{AuthConnectPayload}

abbrev pub remove_hex_prefix : String → String
remove_hex_prefix value = if has_hex_prefix value then drop_two value else value

-- `if (typeof value !== 'string') throw …`
abbrev pub expect_text : Value → String → Result String
expect_text (text s) message = ok s
expect_text v message = err (bad_request message)

unfoldable pub normalize_public_key : Value → Result String
normalize_public_key value = do
  given ← expect_text value "public_key must be provided as a string."
  let public_key = with_hex_prefix (trim given)
  require (is_hex_text 64 130 public_key) (
      bad_request
        "public_key must be a valid hex string starting with 0x and containing 64 to 130 hex characters.")
  ok public_key

unfoldable pub normalize_signature : Value → Result String
normalize_signature value = do
  given ← expect_text value "signature must be provided as a string."
  let signature = with_hex_prefix (trim given)
  require (is_hex_text 128 128 signature)
      (bad_request "signature must be a valid Ed25519 signature hex string.")
  ok signature

unfoldable pub normalize_session_id : Value → Result (Option String)
normalize_session_id undefined = ok none
normalize_session_id null = ok none
normalize_session_id (text value) = ok (if is_empty (trim value) then none else some (trim value))
normalize_session_id value = err (bad_request "last_session_id must be a string.")

-- `typeof value !== 'string' || !value.trim()` throws
abbrev pub require_text : Value → String → Result String
require_text (text s) message = if is_empty (trim s) then err (bad_request message) else ok (trim s)
require_text v message = err (bad_request message)

unfoldable pub parse_auth_connect_payload : Value → Result AuthConnectPayload
parse_auth_connect_payload value = do
  require (is_object value) (bad_request "auth.connect payload must be an object.")
  challenge_id ← require_text (get_field "challenge_id" value) "challenge_id is required."
  last_session_id ← normalize_session_id (get_field "last_session_id" value)
  public_key ← normalize_public_key (get_field "public_key" value)
  signature ← normalize_signature (get_field "signature" value)
  ok (record {
    challenge_id = challenge_id;
    last_session_id = last_session_id;
    public_key = public_key;
    signature = signature;
  })
