-- ===== src/DirectMessages/Signature.antt =====
-- src/modules/direct_message/utils/direct_message_signature.util.ts: the checks on a message that a
-- client or a peer hands in. SHA-256, Ed25519 with its decoding of hexadecimal texts, the quoting
-- of JSON texts and the reading of dates are parameters.
use open_chat_be.Prelude.{
  Bool, List, Option, String, [], false, if◌then◌else◌, is_some, nat_beq, nat_eq, not, string_eq,
  suc, true, zero, ℕ, ◌&&◌, ◌==◌, ◌||◌, ◌∷◌,
}
use open_chat_be.Results.{Result, ok, bad_request, ◌>>=◌, ◌>>◌, require}
use open_chat_be.Json.{Value, text, get_field, is_object}
use open_chat_be.Text.{trim, is_hex_text, with_hex_prefix, is_empty, add_hex_prefix, is_hex_digit}
use open_chat_be.Realtime.Keys.{◌⧺◌}
use open_chat_be.Realtime.Signature.{
  normalize_public_key, normalize_signature, remove_hex_prefix, expect_text,
}
use open_chat_be.DirectMessages.Types.{ChatMessageSendPayload}
use Prim.Native.Char.{code}

pub record SignatureWorld : Type 0 where
  -- `JSON.stringify` of a text
  pub quote : String → String
  pub sha256_hex : String → String
  -- the signature, the message and the public key, in hexadecimal; it throws on what is not
  pub verify : String → String → String → Result Bool
  -- `Date.parse`, with nothing for `NaN`
  pub parse_date : String → Option ℕ

pub record DirectMessageSignaturePayload : Type 0 where
  pub id : String
  pub message : String
  pub send_time : String

-- A regular expression of one class of characters for each place.
pub matches : List (ℕ → Bool) → String → Bool
matches [] String.[] = true
matches [] (String.◌∷◌ c s) = false
matches (p ∷ ps) String.[] = false
matches (p ∷ ps) (String.◌∷◌ c s) = p (code c) && matches ps s

abbrev hex_digits : ℕ → List (ℕ → Bool) → List (ℕ → Bool)
hex_digits zero ps = ps
hex_digits (suc n) ps = is_hex_digit ∷ hex_digits n ps

abbrev is_dash : ℕ → Bool
is_dash c = nat_beq c b'-'

abbrev is_version : ℕ → Bool
is_version c = nat_beq c b'4'

abbrev is_variant : ℕ → Bool
is_variant c =
    nat_beq c b'8'
    || nat_beq c b'9'
    || nat_beq c b'a'
    || nat_beq c b'b'
    || nat_beq c b'A'
    || nat_beq c b'B'

abbrev pub uuid_v4_pattern : List (ℕ → Bool)
uuid_v4_pattern = hex_digits 8 (
    is_dash
    ∷ hex_digits 4 (
        is_dash
        ∷ is_version
        ∷ hex_digits 3 (is_dash ∷ is_variant ∷ hex_digits 3 (is_dash ∷ hex_digits 12 []))))

unfoldable pub is_uuid_v4 : String → Bool
unfolding matches is_hex_digit
is_uuid_v4 s = matches uuid_v4_pattern s

abbrev pub supported_algorithm : String
supported_algorithm = "x25519-xchacha20poly1305"

unfoldable pub normalize_message_hash : Value → Result String
normalize_message_hash value = do
  given ← expect_text value "message_hash must be provided as a string."
  let message_hash = with_hex_prefix (trim given)
  require (is_hex_text 64 64 message_hash)
      (bad_request "message_hash must be a valid SHA-256 hex string.")
  ok message_hash

unfoldable pub normalize_message_id : Value → String → Result String
normalize_message_id value field_name = do
  given ← expect_text value (field_name ⧺ " must be a string.")
  require (is_uuid_v4 (trim given)) (bad_request (field_name ⧺ " must be a valid UUID v4."))
  ok (trim given)

unfoldable pub normalize_message : Value → Result String
normalize_message value = do
  given ← expect_text value "message must be provided as a string."
  require (not (is_empty given)) (bad_request "message is required.")
  ok given

unfoldable pub normalize_algorithm : Value → Result String
normalize_algorithm value = do
  given ← expect_text value "algorithm must be a string."
  require (trim given == supported_algorithm) (bad_request "Unsupported direct-message algorithm.")
  ok (trim given)

module _ (world : SignatureWorld) where
  unfoldable pub normalize_send_time : Value → Result String
  normalize_send_time value = do
    given ← expect_text value "send_time must be a string."
    require (not (is_empty (trim given)) && is_some (world.parse_date (trim given)))
        (bad_request "send_time must be a valid ISO date string.")
    ok (trim given)

  unfoldable pub build_direct_message_signature_payload :
      ChatMessageSendPayload → Result DirectMessageSignaturePayload
  build_direct_message_signature_payload payload = do
    id ← normalize_message_id (text payload.id) "id"
    message ← normalize_message (text payload.message)
    send_time ← normalize_send_time (text payload.send_time)
    ok (record { id = id; message = message; send_time = send_time })

  unfoldable pub create_direct_message_signature_message : DirectMessageSignaturePayload → String
  create_direct_message_signature_message p =
      "{\"message\":"
      ⧺ world.quote p.message
      ⧺ ",\"id\":"
      ⧺ world.quote p.id
      ⧺ ",\"send_time\":"
      ⧺ world.quote p.send_time
      ⧺ "}"

  unfoldable pub create_direct_message_hash : DirectMessageSignaturePayload → String
  create_direct_message_hash p =
      add_hex_prefix (world.sha256_hex (create_direct_message_signature_message p))

  unfoldable pub verify_direct_message_signature : String → ChatMessageSendPayload → Result Bool
  verify_direct_message_signature public_key payload = do
    normalized ← build_direct_message_signature_payload payload
    if create_direct_message_hash normalized == payload.message_hash
        then world.verify (remove_hex_prefix payload.sender_signature)
            (remove_hex_prefix payload.message_hash) (remove_hex_prefix public_key)
        else ok false

  unfoldable pub parse_chat_message_send_payload : Value → Result ChatMessageSendPayload
  parse_chat_message_send_payload value = do
    require (is_object value) (bad_request "chat.message.send payload must be an object.")
    algorithm ← normalize_algorithm (get_field "algorithm" value)
    id ← normalize_message_id (get_field "id" value) "id"
    message ← normalize_message (get_field "message" value)
    message_hash ← normalize_message_hash (get_field "message_hash" value)
    recipient ← normalize_public_key (get_field "recipient_public_key" value)
    signature ← normalize_signature (get_field "sender_signature" value)
    send_time ← normalize_send_time (get_field "send_time" value)
    ok (record {
      algorithm = algorithm;
      id = id;
      message = message;
      message_hash = message_hash;
      recipient_public_key = recipient;
      sender_signature = signature;
      send_time = send_time;
    })

unfoldable pub parse_chat_message_persisted_payload : Value → Result String
parse_chat_message_persisted_payload value = do
  require (is_object value) (bad_request "chat.message.persisted payload must be an object.")
  normalize_message_id (get_field "message_id" value) "message_id"
