-- ===== src/Realtime/Gateway/Node/Entry.antt =====
-- What the state of a node keeps when a socket authenticates and when it goes.
use open_chat_be.Prelude.{
  Bool, List, Option, Option-cases, String, ap, arith, contains, either, either_case, eq_cases,
  false, inl, inr, lookup, nat_eq, none, refl, some, string_eq, subst, sym, true, ℕ, ◌==◌, ◌∙◌, ◌≡◌,
  ◌≢◌,
}
use open_chat_be.Results.{Result, ok, err, Result-cases}
use open_chat_be.Json.{Value}
use open_chat_be.Text.{is_hex_text}
use open_chat_be.Realtime.Types.{
  AuthChallengeRecord, AuthConnectPayload, RealtimeSessionRecord, ReliableEnvelope,
}
use open_chat_be.Realtime.Redis.{StringCommands, SessionStore, HashCommands}
use open_chat_be.Realtime.Keys.{create_session_key, create_auth_challenge_key}
use open_chat_be.Realtime.Signature.{parse_auth_connect_payload}
use open_chat_be.Realtime.Signature.Canonical.{parse_auth_connect_payload_sound}
use open_chat_be.Realtime.Challenges.{ChallengeWorld, consume_and_verify_challenge}
use open_chat_be.Realtime.Connection.{
  Connections, ConnectionState, mark_authenticated, get_authenticated_state, has_local_session,
  remove_client,
}
use open_chat_be.Realtime.Connection.Consistency.{
  IsConsistent, mark_authenticated-IsConsistent, remove_client-IsConsistent,
}
use open_chat_be.Realtime.Connection.Timers.{
  AreTimersSound, mark_authenticated-AreTimersSound, remove_client-AreTimersSound,
}
use open_chat_be.Realtime.Rooms.{
  LocalRooms, sync_local_rooms, restore_session_rooms, replace_session_rooms, get_local_session_ids,
}
use open_chat_be.Realtime.Rooms.Mirror.{
  IsMirrored, ids-clear, sync_local_rooms-IsMirrored, clear_local_memberships-IsMirrored,
}
use open_chat_be.Realtime.Sessions.{SessionResult, create_or_restore_session, to_restore}
use open_chat_be.Realtime.Sessions.Restore.{AreKeyed, restored-owner}
use open_chat_be.Realtime.Gateway.{
  Gateway, GatewayConfig, enter_session, admit, answer_challenge, handle_auth_connect,
  handle_disconnect, leave_last,
}
use open_chat_be.Realtime.Gateway.Admission.{handle-of_unparsed, handle-of_parsed}
use open_chat_be.Realtime.Gateway.Node.Housed.{
  IsHoused, has_local-mark, has_local-remove, sync_local_rooms-IsHoused,
}

pub record IsSound (c : Connections) (r : LocalRooms) : Type 0 where
  pub consistent : IsConsistent c
  pub timers : AreTimersSound c
  pub mirrored : IsMirrored r
  pub housed : IsHoused c r

abbrev pub IsSoundNode : {S : Type 0} → Gateway S → Type 0
IsSoundNode g = IsSound g.connections g.rooms

module _ {S P : Type 0} (challenges : StringCommands S AuthChallengeRecord)
    (store : SessionStore S RealtimeSessionRecord) (pending : HashCommands S (ReliableEnvelope P))
    (world : ChallengeWorld) (config : GatewayConfig) (is_open : ℕ → Bool) where
  abbrev AreRoomsSound : Connections → LocalRooms → Type 0
  AreRoomsSound c r = IsMirrored r × IsHoused c r

  sync-AreRoomsSound :
      (c : Connections) (session_id : String) (rooms : List String) (r : LocalRooms)
      → AreRoomsSound c r
      → AreRoomsSound c (sync_local_rooms (has_local_session session_id c) session_id rooms r)
  sync-AreRoomsSound c session_id rooms r (v, h) = (
    sync_local_rooms-IsMirrored (has_local_session session_id c) session_id rooms r v,
    sync_local_rooms-IsHoused session_id rooms c r v h,
  )

  -- A socket that gets a session: its rooms are put in place of what was there.
  enter_session-IsSoundNode :
      (client : ℕ) (public_key : String) (result : SessionResult) (g : Gateway S)
      → result.session.session_id ≢ ""
      → public_key ≢ ""
      → get_authenticated_state client g.connections ≡ none
      → IsSoundNode g
      → IsSoundNode
          (enter_session challenges store pending world config is_open client public_key result g).0
  unfolding enter_session restore_session_rooms replace_session_rooms
  enter_session-IsSoundNode client public_key result g named keyed out v =
      let id = result.session.session_id in
      let c = mark_authenticated client id public_key g.connections in
      let before : AreRoomsSound c g.rooms = (
        v.mirrored,
        λ room session there.
            has_local-mark client id public_key session g.connections (v.housed room session there),
      ) in
      let restored = sync-AreRoomsSound c id _ g.rooms before in
      let after = sync-AreRoomsSound c id _ _ (
        either (λ (x : LocalRooms × List String). AreRoomsSound c x.0) result.restored restored
          before) in
      record {
        consistent =
            mark_authenticated-IsConsistent client id public_key g.connections named keyed out
              v.consistent;
        timers = mark_authenticated-AreTimersSound client id public_key g.connections v.timers;
        mirrored = after.0;
        housed = after.1;
      }

  -- A session that is resumed or created has a name.
  session_id-named :
      (now : ℕ) (new_id public_key : String) (o : Option String) (s : S)
      → new_id ≢ ""
      → o ≢ some ""
      → AreKeyed store config.sessions s
      → (create_or_restore_session store config.sessions now new_id public_key o
          s).0.session.session_id
        ≢ ""
  unfolding create_or_restore_session
  session_id-named now new_id public_key o s fresh given keyed =
      elim (Option-cases (to_restore store config.sessions now public_key o s)) [
        | inl e ↦ ground (arith, e, fresh)
        | inr (r, e) ↦
            let (id, asked, found, _, _) =
              restored-owner store config.sessions now public_key o s r e in
            ground (arith, e, given, asked, keyed id r found)
      ]

  -- Deleting a challenge leaves the session records.
  abbrev pub KeepsSessions : Type 0
  KeepsSessions =
      (key id : String) (s : S)
      → store.strings.get (create_session_key id) (challenges.del key s)
        ≡ store.strings.get (create_session_key id) s

  redis-consume :
      (now : ℕ) (payload : AuthConnectPayload) (s : S)
      → (consume_and_verify_challenge challenges world config.challenge_ttl_seconds now payload s).1
        ≡ challenges.del (create_auth_challenge_key payload.challenge_id) s
  unfolding consume_and_verify_challenge
  redis-consume now payload s = ground arith

  answer_challenge-IsSoundNode :
      (now : ℕ) (new_id : String) (client : ℕ) (payload : AuthConnectPayload)
      (outcome : Result AuthChallengeRecord × S) (g : Gateway S)
      → new_id ≢ ""
      → payload.public_key ≢ ""
      → payload.last_session_id ≢ some ""
      → AreKeyed store config.sessions outcome.1
      → get_authenticated_state client g.connections ≡ none
      → IsSoundNode g
      → IsSoundNode
          (answer_challenge challenges store pending world config is_open now new_id client payload
            outcome g).0
  unfolding answer_challenge admit
  answer_challenge-IsSoundNode now new_id client payload (err e, s) g fresh key given keyed out v =
      record {
        consistent = v.consistent;
        timers = v.timers;
        mirrored = v.mirrored;
        housed = v.housed;
      }
  answer_challenge-IsSoundNode now new_id client payload (ok r, s) g fresh key given keyed out v =
      enter_session-IsSoundNode client payload.public_key _ (record g { redis = _ })
        (session_id-named now new_id payload.public_key payload.last_session_id s fresh given keyed)
        key out v

  nil_is_no_hex : is_hex_text 64 130 "" ≡ false
  unfolding is_hex_text
  nil_is_no_hex = refl

  hex-ne-nil : (s : String) → is_hex_text 64 130 s ≡ true → s ≢ ""
  hex-ne-nil s shape e = absurd (cc (shape, e, nil_is_no_hex))

  handle-of_authenticated :
      (now : ℕ) (new_id : String) (client : ℕ) (body : Value) (st : ConnectionState) (g : Gateway S)
      → get_authenticated_state client g.connections ≡ some st
      → (handle_auth_connect challenges store pending world config is_open now new_id client body
          g).0
        ≡ g
  unfolding handle_auth_connect
  handle-of_authenticated now new_id client body st g known = cc known

  pub handle_auth_connect-IsSoundNode :
      KeepsSessions
      → (now : ℕ) (new_id : String) (client : ℕ) (body : Value) (g : Gateway S) → new_id ≢ ""
      → AreKeyed store config.sessions g.redis
      → IsSoundNode g
      → IsSoundNode
          (handle_auth_connect challenges store pending world config is_open now new_id client body
            g).0
  handle_auth_connect-IsSoundNode keeps now new_id client body g fresh keyed v =
      elim (Option-cases (get_authenticated_state client g.connections)) [
        | inr (st, known) ↦
            subst (λ g'. IsSoundNode g')
              (sym (handle-of_authenticated now new_id client body st g known)) v
        | inl out ↦ elim (Result-cases (parse_auth_connect_payload body)) [
          | inr (e, bad) ↦
              subst (λ g'. IsSoundNode g')
                (sym (
                  handle-of_unparsed challenges store pending world config is_open now new_id client
                    body e g out bad))
                v
          | inl (payload, parsed) ↦
              let (shape, _, _, given) = parse_auth_connect_payload_sound body payload parsed in
              let left : AreKeyed store config.sessions
                  (consume_and_verify_challenge challenges world config.challenge_ttl_seconds now
                    payload g.redis).1 =
                λ id r found. keyed id r (
                  sym (keeps (create_auth_challenge_key payload.challenge_id) id g.redis)
                  ∙ ap (λ s. store.strings.get (create_session_key id) s)
                      (sym (redis-consume now payload g.redis))
                  ∙ found) in
              subst (λ g'. IsSoundNode g')
                (sym (
                  handle-of_parsed challenges store pending world config is_open now new_id client
                    body payload g out parsed))
                (answer_challenge-IsSoundNode now new_id client payload _ g fresh
                  (hex-ne-nil payload.public_key shape) given left out v)
        ]
      ]

  -- The session of a socket that is gone is left, unless it has another socket.
  leave_last-IsSoundNode :
      (now client : ℕ) (st : ConnectionState) (g : Gateway S) (o : Option String)
      → lookup client g.connections.client_states ≡ some st
      → st.session_id ≡ o
      → IsSoundNode g
      → IsSoundNode (
          leave_last challenges store pending world config is_open now o
            (record g { connections = (remove_client client g.connections).0 }))
  leave_last-IsSoundNode now client st g none e n v = record {
    consistent = remove_client-IsConsistent client g.connections v.consistent;
    timers = remove_client-AreTimersSound client g.connections v.timers;
    mirrored = v.mirrored;
    housed = λ room session there.
        has_local-remove client session g.connections st e (ground (arith, n))
          (v.housed room session there);
  }
  leave_last-IsSoundNode now client st g (some sid) e n v =
      let c = (remove_client client g.connections).0 in
      let consistent' = remove_client-IsConsistent client g.connections v.consistent in
      let timers' = remove_client-AreTimersSound client g.connections v.timers in
      let elsewhere : (room session : String)
          → contains (get_local_session_ids room g.rooms) session ≡ true
          → sid ≢ session
          → has_local_session session c ≡ true =
        λ room session there other.
          has_local-remove client session g.connections st e (ground (arith, n, other))
            (v.housed room session there) in
      either_case (λ g'. IsSoundNode g') (sid == "")
        (λ blank. absurd (ground (arith, e, n, v.consistent.whole client, blank)))
        (λ given.
          either_case (λ g'. IsSoundNode g') (has_local_session sid c)
            (λ kept. record {
              consistent = consistent';
              timers = timers';
              mirrored = v.mirrored;
              housed = λ room session there. elim (eq_cases sid session) [
                | inl same ↦ rw⁻¹ same kept
                | inr other ↦ elsewhere room session there other
              ];
            })
            (λ gone. record {
              consistent = consistent';
              timers = timers';
              mirrored = clear_local_memberships-IsMirrored sid g.rooms v.mirrored;
              housed = λ room session there.
                  elsewhere room session
                    (ground (arith, there, ids-clear sid room session g.rooms v.mirrored))
                    (ground (
                      arith,
                      there,
                      string_eq.beq_iff sid session,
                      ids-clear sid room session g.rooms v.mirrored,
                    ));
            }))

  disconnect-of_unknown :
      (now client : ℕ) (g : Gateway S)
      → lookup client g.connections.client_states ≡ none
      → handle_disconnect challenges store pending world config is_open now client g ≡ g
  unfolding handle_disconnect remove_client
  disconnect-of_unknown now client g e = cc e

  disconnect-of_known :
      (now client : ℕ) (st : ConnectionState) (g : Gateway S)
      → lookup client g.connections.client_states ≡ some st
      → handle_disconnect challenges store pending world config is_open now client g
        ≡ leave_last challenges store pending world config is_open now st.session_id
            (record g { connections = (remove_client client g.connections).0 })
  unfolding handle_disconnect remove_client
  disconnect-of_known now client st g e = cc e

  pub handle_disconnect-IsSoundNode :
      (now client : ℕ) (g : Gateway S)
      → IsSoundNode g
      → IsSoundNode (handle_disconnect challenges store pending world config is_open now client g)
  handle_disconnect-IsSoundNode now client g v =
      elim (Option-cases (lookup client g.connections.client_states)) [
        | inl e ↦ subst (λ g'. IsSoundNode g') (sym (disconnect-of_unknown now client g e)) v
        | inr (st, e) ↦
            subst (λ g'. IsSoundNode g') (sym (disconnect-of_known now client st g e))
              (leave_last-IsSoundNode now client st g st.session_id e refl v)
      ]
