-- ===== src/Realtime/Signature/Canonical.antt =====
-- What the parser lets through is canonical: parsing it again gives the same.
use open_chat_be.Realtime.Signature.{
  normalize_signature, normalize_public_key, normalize_session_id, parse_auth_connect_payload,
  require_text,
}
use open_chat_be.Prelude.{Option, String, ap, arith, false, nat_eq, some, string_eq, true, ◌≡◌, ◌≢◌}
use open_chat_be.Results.{ok, require, >>=-eq-ok}
use open_chat_be.Json.{get_field, is_object, Value, text}
use open_chat_be.Text.{trim, is_hex_text, is_empty}
use open_chat_be.Text.Trimmed.{trim_of_hex_text, with_hex_prefix_of_hex_text}
use open_chat_be.Realtime.Types.{AuthConnectPayload}

-- A public key that is accepted is `0x` and 64 to 130 hexadecimal digits, and is accepted as it is.
pub normalize_public_key-canonical :
    (value : Value) (k : String)
    → normalize_public_key value ≡ ok k
    → (is_hex_text 64 130 k ≡ true) × (normalize_public_key (text k) ≡ ok k)
unfolding normalize_public_key
normalize_public_key-canonical value k h =
    let shape : is_hex_text 64 130 k ≡ true = ground arith in
    (
      shape,
      ground (
        arith,
        shape,
        trim_of_hex_text 64 130 k shape,
        with_hex_prefix_of_hex_text 64 130 k shape,
      ),
    )

pub normalize_signature-canonical :
    (value : Value) (k : String)
    → normalize_signature value ≡ ok k
    → (is_hex_text 128 128 k ≡ true) × (normalize_signature (text k) ≡ ok k)
unfolding normalize_signature
normalize_signature-canonical value k h =
    let shape : is_hex_text 128 128 k ≡ true = ground arith in
    (
      shape,
      ground (
        arith,
        shape,
        trim_of_hex_text 128 128 k shape,
        with_hex_prefix_of_hex_text 128 128 k shape,
      ),
    )

require_text-nonempty :
    (value : Value) (message s : String) → require_text value message ≡ ok s → is_empty s ≡ false
require_text-nonempty (text t) message s h = ground arith
require_text-nonempty value message s h = cc

normalize_session_id-nonempty :
    (value : Value) (o : Option String) → normalize_session_id value ≡ ok o → o ≢ some ""
unfolding normalize_session_id
normalize_session_id-nonempty (text t) o h q = ground (arith, λ (e : trim t ≡ ""). ap is_empty e)
normalize_session_id-nonempty value o h q = ground arith

-- A parsed request has a key and a signature of the right form, a challenge, and no empty session.
pub parse_auth_connect_payload_sound :
    (value : Value) (p : AuthConnectPayload)
    → parse_auth_connect_payload value ≡ ok p
    → (is_hex_text 64 130 p.public_key ≡ true)
      × (is_hex_text 128 128 p.signature ≡ true)
      × (is_empty p.challenge_id ≡ false)
      × (p.last_session_id ≢ some "")
unfolding parse_auth_connect_payload
parse_auth_connect_payload_sound value p h =
    let (_, _, h1) = >>=-eq-ok (require (is_object value) _) _ h in
    let (id, got_id, h2) = >>=-eq-ok (require_text (get_field "challenge_id" value) _) _ h1 in
    let (last, got_last, h3) =
      >>=-eq-ok (normalize_session_id (get_field "last_session_id" value)) _ h2 in
    let (key, got_key, h4) = >>=-eq-ok (normalize_public_key (get_field "public_key" value)) _ h3 in
    let (sig, got_sig, h5) = >>=-eq-ok (normalize_signature (get_field "signature" value)) _ h4 in
    let key_shape = (normalize_public_key-canonical (get_field "public_key" value) key got_key).0 in
    let sig_shape = (normalize_signature-canonical (get_field "signature" value) sig got_sig).0 in
    let id_there = require_text-nonempty (get_field "challenge_id" value) _ id got_id in
    let last_there =
      normalize_session_id-nonempty (get_field "last_session_id" value) last got_last in
    (ground arith, ground arith, ground arith, ground arith)
