-- ===== src/Realtime/Gateway/Admission.antt =====
-- Who gets in, and what a socket can do to the sessions: a socket is authenticated only for the key
-- that answered a challenge.
use open_chat_be.Prelude.{
  Bool, Option-cases, String, arith, inl, inr, lookup, lookup-insert_self, nat_eq, none, refl, some,
  string_eq, true, ℕ, ◌≡◌, ◌≤◌,
}
use open_chat_be.Results.{Exception, Result, ok, err, Result-cases}
use open_chat_be.Json.{Value}
use open_chat_be.Realtime.Types.{
  AuthChallengeRecord, AuthConnectPayload, RealtimeSessionRecord, ReliableEnvelope,
}
use open_chat_be.Realtime.Redis.{StringCommands, SessionStore, HashCommands}
use open_chat_be.Realtime.Keys.{create_auth_challenge_key}
use open_chat_be.Realtime.Signature.{parse_auth_connect_payload}
use open_chat_be.Realtime.Challenges.{
  ChallengeWorld, challenge_message, consume_and_verify_challenge,
}
use open_chat_be.Realtime.Challenges.Once.{consume_and_verify_challenge_sound}
use open_chat_be.Realtime.Connection.{
  ConnectionState, Connections, mark_authenticated, get_authenticated_state, authenticated_state,
}
use open_chat_be.Realtime.Gateway.{
  Gateway, GatewayConfig, enter_session, admit, answer_challenge, handle_auth_connect,
}

public_key-mark :
    (client : ℕ) (session_id public_key : String) (c : Connections) (s : ConnectionState)
    → get_authenticated_state client (mark_authenticated client session_id public_key c) ≡ some s
    → get_authenticated_state client c ≡ none
    → s.public_key ≡ some public_key
unfolding get_authenticated_state
public_key-mark client session_id public_key c s h n =
    elim (Option-cases (lookup client c.client_states)) [
      | inl e ↦ absurd (unfold mark_authenticated in ground (arith, e))
      | inr (st, e) ↦
          unfold mark_authenticated in
          ground (
            arith,
            e,
            lookup-insert_self client (authenticated_state session_id public_key st)
                c.client_states,
          )
    ]

module _ {S P : Type 0} (challenges : StringCommands S AuthChallengeRecord)
    (store : SessionStore S RealtimeSessionRecord) (pending : HashCommands S (ReliableEnvelope P))
    (world : ChallengeWorld) (config : GatewayConfig) (is_open : ℕ → Bool) where
  connections-admit :
      (now : ℕ) (new_id : String) (client : ℕ) (payload : AuthConnectPayload) (g : Gateway S)
      → (id : String) × ((admit challenges store pending world config is_open now new_id client
            payload g).0.connections
          ≡ mark_authenticated client id payload.public_key g.connections)
  unfolding admit enter_session
  connections-admit now new_id client payload g = (_, refl)

  abbrev pub outcome : ℕ → AuthConnectPayload → Gateway S → Result AuthChallengeRecord × S
  outcome now payload g =
      consume_and_verify_challenge challenges world config.challenge_ttl_seconds now payload g.redis

  abbrev pub handled : ℕ → String → ℕ → Value → Gateway S → Gateway S
  handled now new_id client body g =
      (handle_auth_connect challenges store pending world config is_open now new_id client body g).0

  abbrev pub answered : ℕ → String → ℕ → AuthConnectPayload → Gateway S → Gateway S
  answered now new_id client payload g =
      (answer_challenge challenges store pending world config is_open now new_id client payload
        (outcome now payload g) g).0

  pub handle-of_unparsed :
      (now : ℕ) (new_id : String) (client : ℕ) (body : Value) (e : Exception) (g : Gateway S)
      → get_authenticated_state client g.connections ≡ none
      → parse_auth_connect_payload body ≡ err e
      → handled now new_id client body g ≡ g
  unfolding handle_auth_connect
  handle-of_unparsed now new_id client body e g out bad = cc (out, bad)

  pub handle-of_parsed :
      (now : ℕ) (new_id : String) (client : ℕ) (body : Value) (payload : AuthConnectPayload)
      (g : Gateway S)
      → get_authenticated_state client g.connections ≡ none
      → parse_auth_connect_payload body ≡ ok payload
      → handled now new_id client body g ≡ answered now new_id client payload g
  unfolding handle_auth_connect
  handle-of_parsed now new_id client body payload g out parsed = cc (out, parsed)

  answer-of_refused :
      (now : ℕ) (new_id : String) (client : ℕ) (payload : AuthConnectPayload) (e : Exception)
      (g : Gateway S)
      → (outcome now payload g).0 ≡ err e
      → (answered now new_id client payload g).connections ≡ g.connections
  unfolding answer_challenge
  answer-of_refused now new_id client payload e g bad = cc bad

  answer-of_met :
      (now : ℕ) (new_id : String) (client : ℕ) (payload : AuthConnectPayload)
      (r : AuthChallengeRecord) (g : Gateway S)
      → (outcome now payload g).0 ≡ ok r
      → answered now new_id client payload g
        ≡ (admit challenges store pending world config is_open now new_id client payload
            (record g { redis = (outcome now payload g).1 })).0
  unfolding answer_challenge
  answer-of_met now new_id client payload r g met = cc met

  -- If a socket becomes authenticated, then it is for the key that its message names, for which a
  -- challenge lay in the store that had not run out, and whose signature of that challenge was
  -- found right.
  pub handle_auth_connect-admits :
      (now : ℕ) (new_id : String) (client : ℕ) (body : Value) (g : Gateway S) (s : ConnectionState)
      → get_authenticated_state client g.connections ≡ none
      → get_authenticated_state client
          (handle_auth_connect challenges store pending world config is_open now new_id client body
            g).0.connections
        ≡ some s
      → (payload : AuthConnectPayload) × (r : AuthChallengeRecord) × (parse_auth_connect_payload
            body
          ≡ ok payload)
        × (s.public_key ≡ some payload.public_key)
        × (challenges.get (create_auth_challenge_key payload.challenge_id) g.redis ≡ some r)
        × (r.public_key ≡ payload.public_key)
        × (now ≤ r.expires_at)
        × (world.verify payload.signature
              (challenge_message challenges world config.challenge_ttl_seconds r)
              payload.public_key
            ≡ ok true)
  handle_auth_connect-admits now new_id client body g s out h =
      elim (Result-cases (parse_auth_connect_payload body)) [
        | inr (e, bad) ↦ absurd (cc (handle-of_unparsed now new_id client body e g out bad, out, h))
        | inl (payload, parsed) ↦
            let step = handle-of_parsed now new_id client body payload g out parsed in
            elim (Result-cases (outcome now payload g).0) [
              | inr (e, bad) ↦
                  absurd (cc (step, answer-of_refused now new_id client payload e g bad, out, h))
              | inl (r, met) ↦
                  let (id, entered) =
                    connections-admit now new_id client payload
                      (record g { redis = (outcome now payload g).1 }) in
                  let sound =
                    consume_and_verify_challenge_sound challenges world config.challenge_ttl_seconds
                      now payload g.redis r met in
                  let key =
                    public_key-mark client id payload.public_key g.connections s
                      (cc (step, answer-of_met now new_id client payload r g met, entered, h))
                      out in
                  (payload, r, parsed, key, sound.0, sound.1, sound.2, sound.3)
            ]
      ]
