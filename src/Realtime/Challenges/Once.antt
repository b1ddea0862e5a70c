-- ===== src/Realtime/Challenges/Once.antt =====
-- A challenge is answered once, by the key that it was made for, in time, and with a signature.
use open_chat_be.Prelude.{
  Option, Option-cases, String, arith, beq_refl, inl, inr, nat_eq, some, string_eq, true, ℕ, ◌*◌,
  ◌+◌, ◌≡◌, ◌≤◌,
}
use open_chat_be.Results.{ok, err, unauthorized}
use open_chat_be.Realtime.Types.{AuthChallengeRecord, AuthConnectPayload}
use open_chat_be.Realtime.Redis.{StringCommands}
use open_chat_be.Realtime.Keys.{create_auth_challenge_key}
use open_chat_be.Realtime.Challenges.{
  create_challenge, challenge_message, verify_challenge, consume_and_verify_challenge,
  ChallengeWorld, challenge_record,
}

module _ {S : Type 0} (redis : StringCommands S AuthChallengeRecord) (world : ChallengeWorld)
    (ttl : ℕ) where
  -- A challenge that was tried, with success or without, cannot be tried again.
  pub consume_and_verify_challenge-once :
      (now later : ℕ) (first second : AuthConnectPayload) (s : S)
      → second.challenge_id ≡ first.challenge_id
      → (consume_and_verify_challenge redis world ttl later second
          (consume_and_verify_challenge redis world ttl now first s).1).0
        ≡ err (unauthorized "Challenge is invalid, expired, or already used.")
  unfolding consume_and_verify_challenge
  consume_and_verify_challenge-once now later first second s same =
      let key = create_auth_challenge_key first.challenge_id in
      rw same (ground (arith, redis.get-del key key s, beq_refl key))

  verify_challenge_sound :
      (now : ℕ) (payload : AuthConnectPayload) (x r : AuthChallengeRecord)
      → verify_challenge redis world ttl now payload x ≡ ok r
      → (x ≡ r)
        × (x.public_key ≡ payload.public_key)
        × (now ≤ x.expires_at)
        × (world.verify payload.signature (challenge_message redis world ttl x) payload.public_key
            ≡ ok true)
  unfolding verify_challenge
  verify_challenge_sound now payload x r h =
      ground (arith, string_eq.beq_iff x.public_key payload.public_key)

  -- What is established when a client is let in.
  pub consume_and_verify_challenge_sound :
      (now : ℕ) (payload : AuthConnectPayload) (s : S) (r : AuthChallengeRecord)
      → (consume_and_verify_challenge redis world ttl now payload s).0 ≡ ok r
      → (redis.get (create_auth_challenge_key payload.challenge_id) s ≡ some r)
        × (r.public_key ≡ payload.public_key)
        × (now ≤ r.expires_at)
        × (world.verify payload.signature (challenge_message redis world ttl r) payload.public_key
            ≡ ok true)
  consume_and_verify_challenge_sound now payload s r h =
      elim (Option-cases (redis.get (create_auth_challenge_key payload.challenge_id) s)) [
        | inl e ↦ unfold consume_and_verify_challenge in cc (e, h)
        | inr (x, e) ↦
            unfold consume_and_verify_challenge in
            ground (arith, e, verify_challenge_sound now payload x r)
      ]

  -- A client that signs the challenge made for its key is let in until the challenge expires.
  pub consume-create_challenge :
      (now later : ℕ) (id nonce signature public_key : String) (last : Option String) (s : S)
      → later ≤ now + ttl * 1000
      → world.verify signature
          (challenge_message redis world ttl
            (challenge_record redis world ttl now id nonce public_key))
          public_key
        ≡ ok true
      → let (response, s') = create_challenge redis world ttl now id nonce public_key s in
        let payload : AuthConnectPayload = record {
          challenge_id = response.challenge_id;
          last_session_id = last;
          public_key = public_key;
          signature = signature;
        } in
        (consume_and_verify_challenge redis world ttl later payload s').0
        ≡ ok (challenge_record redis world ttl now id nonce public_key)
  unfolding consume_and_verify_challenge verify_challenge create_challenge
  consume-create_challenge now later id nonce signature public_key last s in_time signed =
      let key = create_auth_challenge_key id in
      ground (
        arith,
        beq_refl key,
        beq_refl public_key,
        redis.get-set key key (challenge_record redis world ttl now id nonce public_key)
            (ttl * 1000) s,
      )
