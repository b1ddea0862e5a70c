-- ===== src/Realtime/Challenges.antt =====
-- src/modules/realtime/services/realtime_challenge.service.ts: the challenge that a client signs.
-- The random values, the text of a date, the server's signature and the check of an Ed25519
-- signature are parameters.
pub mod Once
use open_chat_be.Prelude.{
  Bool, String, false, has, if◌then◌else◌, ltb, nat_eq, none, not, some, string_eq, true, ℕ, ◌*◌,
  ◌+◌, ◌==◌,
}
use open_chat_be.Results.{Result, ok, err, unauthorized}
use open_chat_be.Realtime.Types.{AuthChallengeRecord, AuthConnectPayload}
use open_chat_be.Realtime.Redis.{StringCommands}
use open_chat_be.Realtime.Keys.{create_auth_challenge_key, ◌⧺◌}

pub record ChallengeWorld : Type 0 where
  pub to_iso_string : ℕ → String
  pub server_public_key : String
  pub sign_message : String → String
  -- the signature, the message and the public key; bytes that cannot be read are an exception
  pub verify : String → String → String → Result Bool

pub record ChallengeResponse : Type 0 where
  pub challenge_id : String
  pub expires_at : ℕ
  pub nonce : String
  pub server_public_key : String
  pub server_signature : String

unfoldable pub create_auth_challenge_message : String → String → String → String → String
create_auth_challenge_message challenge_id public_key nonce expires_at =
    "open-chat:ws-auth:" ⧺ challenge_id ⧺ ":" ⧺ public_key ⧺ ":" ⧺ nonce ⧺ ":" ⧺ expires_at

module _ {S : Type 0} (redis : StringCommands S AuthChallengeRecord) (world : ChallengeWorld)
    (challenge_ttl_seconds : ℕ) where
  abbrev pub challenge_message : AuthChallengeRecord → String
  challenge_message r =
      create_auth_challenge_message r.challenge_id r.public_key r.nonce
        (world.to_iso_string r.expires_at)

  abbrev pub challenge_record : ℕ → String → String → String → AuthChallengeRecord
  challenge_record now challenge_id nonce public_key = record {
    challenge_id = challenge_id;
    created_at = now;
    expires_at = now + challenge_ttl_seconds * 1000;
    nonce = nonce;
    public_key = public_key;
  }

  unfoldable pub create_challenge : ℕ → String → String → String → S → ChallengeResponse × S
  create_challenge now challenge_id nonce public_key s =
      let r = challenge_record now challenge_id nonce public_key in
      (
        record {
          challenge_id = challenge_id;
          expires_at = r.expires_at;
          nonce = nonce;
          server_public_key = world.server_public_key;
          server_signature = world.sign_message (challenge_message r);
        },
        redis.set (create_auth_challenge_key challenge_id) r (challenge_ttl_seconds * 1000) s,
      )

  -- The tests on a record that was found.
  unfoldable pub verify_challenge :
      ℕ → AuthConnectPayload → AuthChallengeRecord → Result AuthChallengeRecord
  verify_challenge now payload r =
      if not (r.public_key == payload.public_key)
      then err (unauthorized "Challenge does not match this public key.")
      else if ltb r.expires_at now
      then err (unauthorized "Challenge has expired.")
      else elim (world.verify payload.signature (challenge_message r) payload.public_key) [
        | err e ↦ err e
        | ok false ↦ err (unauthorized "Challenge signature verification failed.")
        | ok true ↦ ok r
      ]

  -- GETDEL reads the record and deletes it, whatever the tests then say.
  unfoldable pub consume_and_verify_challenge :
      ℕ → AuthConnectPayload → S → Result AuthChallengeRecord × S
  consume_and_verify_challenge now payload s =
      let key = create_auth_challenge_key payload.challenge_id in
      elim (redis.get key s) [
        | none ↦
            (err (unauthorized "Challenge is invalid, expired, or already used."), redis.del key s)
        | some r ↦ (verify_challenge now payload r, redis.del key s)
      ]
