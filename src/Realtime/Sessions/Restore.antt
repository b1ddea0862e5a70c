-- ===== src/Realtime/Sessions/Restore.antt =====
-- Who gets which session, and what becomes of the record.
use open_chat_be.Prelude.{
  Option, Option-cases, String, [], ap, arith, beq_refl, contains, false, if◌then◌else◌, inl, inr,
  nat_eq, none, or_else, refl, some, string_eq, sym, true, ℕ, ◌+◌, ◌==◌, ◌∙◌, ◌∷◌, ◌≡◌, ◌≢◌, ◌≤◌,
}
use open_chat_be.Realtime.Types.{RealtimeSessionRecord, active}
use open_chat_be.Realtime.Redis.{SessionStore}
use open_chat_be.Realtime.Keys.{create_session_key, create_user_sessions_key}
use open_chat_be.Realtime.Keys.Injective.{create_session_key-injective}
use open_chat_be.Realtime.Sessions.{
  created_session, restored_session, create_or_restore_session, SessionResult, get_session,
  get_session_ttl_ms, persist_session, add_active_session, SessionConfig, to_restore,
}

module _ {S : Type 0} (store : SessionStore S RealtimeSessionRecord) (config : SessionConfig) where
  open store use {strings.{get, set}, sets.{smembers, sadd, srem}}

  -- A record lies under the key of its own id.
  abbrev pub AreKeyed : S → Type 0
  AreKeyed s =
      (id : String) (r : RealtimeSessionRecord)
      → get (create_session_key id) s ≡ some r
      → r.session_id ≡ id

  get-persist :
      (r : RealtimeSessionRecord) (pk m : String) (s : S) (id : String)
      → get
          (create_session_key id)
          (add_active_session store config pk m (persist_session store config r s))
        ≡ (if r.session_id == id then some r else get (create_session_key id) s)
  get-persist r pk m s id =
      store.get-sadd (create_user_sessions_key pk) (create_session_key id) (m ∷ [])
        (persist_session store config r s)
      ∙ ground (
        arith,
        store.strings.get-set (create_session_key r.session_id) (create_session_key id) r
            (get_session_ttl_ms store config) s,
        string_eq.beq_iff r.session_id id,
        string_eq.beq_iff (create_session_key r.session_id) (create_session_key id),
        create_session_key-injective r.session_id id,
      )

  pub restored-owner :
      (now : ℕ) (public_key : String) (o : Option String) (s : S) (r : RealtimeSessionRecord)
      → to_restore store config now public_key o s ≡ some r
      → (id : String) × (o ≡ some id)
        × (get (create_session_key id) s ≡ some r)
        × (r.public_key ≡ public_key)
        × (now ≤ r.reconnect_expires_at)
  restored-owner now public_key (some id) s r h = (
    id,
    refl,
    ground (arith),
    ground (arith, string_eq.beq_iff r.public_key public_key),
    ground arith,
  )
  restored-owner now public_key none s r h = cc

  sadd_self : (key m : String) (s : S) → contains (smembers key (sadd key (m ∷ []) s)) m ≡ true
  unfolding contains
  sadd_self key m s =
      ground (arith, store.sets.smembers-sadd key key (m ∷ []) s m, beq_refl key, beq_refl m)

  stored :
      (x : RealtimeSessionRecord) (pk : String) (s : S)
      → let s' =
          add_active_session store config pk x.session_id (persist_session store config x s) in
        (get_session store config x.session_id s' ≡ some x)
        × (contains (smembers (create_user_sessions_key pk) s') x.session_id ≡ true)
  stored x pk s = (
    get-persist x pk x.session_id s x.session_id ∙ ground (arith, beq_refl x.session_id),
    sadd_self (create_user_sessions_key pk) x.session_id (persist_session store config x s),
  )

  module _ (now : ℕ) (new_id public_key : String) (last : Option String) (s : S) where
    abbrev pub outcome : SessionResult × S
    outcome = create_or_restore_session store config now new_id public_key last s

    created :
        to_restore store config now public_key last s ≡ none
        → outcome ≡ (
          record { restored = false; session = created_session store config now public_key new_id },
          add_active_session store config public_key new_id
              (persist_session store config (created_session store config now public_key new_id) s),
        )
    unfolding create_or_restore_session
    created e = rw (e, create_or_restore_session)

    resumed :
        (r : RealtimeSessionRecord)
        → to_restore store config now public_key last s ≡ some r
        → outcome ≡ (
          record { restored = true; session = restored_session store config now r },
          add_active_session store config r.public_key
              (or_else last "")
              (persist_session store config (restored_session store config now r) s),
        )
    unfolding create_or_restore_session
    resumed r e = rw (e, create_or_restore_session)

    -- Whoever connects gets a session of their own: its key is theirs, it is active on this node,
    -- and it may be resumed for the whole period of grace.
    pub create_or_restore_session-owner :
        (outcome.0.session.public_key ≡ public_key)
        × (outcome.0.session.status ≡ active)
        × (outcome.0.session.node_id ≡ config.node_id)
        × (outcome.0.session.reconnect_expires_at ≡ now + config.reconnect_grace_ms)
    create_or_restore_session-owner =
        elim (Option-cases (to_restore store config now public_key last s)) [
          | inl e ↦ rw (created e) (refl, refl, refl, refl)
          | inr (r, e) ↦
              let (id, same, found, owner, fresh) = restored-owner now public_key last s r e in
              rw (resumed r e) (owner, refl, refl, refl)
        ]

    -- The session that is answered is the one that Redis then holds, among the user's active ones.
    pub create_or_restore_session-stored :
        AreKeyed s
        → (get_session store config outcome.0.session.session_id outcome.1 ≡ some outcome.0.session)
          × (contains
                (smembers (create_user_sessions_key public_key) outcome.1)
                outcome.0.session.session_id
              ≡ true)
    create_or_restore_session-stored keyed =
        elim (Option-cases (to_restore store config now public_key last s)) [
          | inl e ↦
              rw (created e)
                (stored (created_session store config now public_key new_id) public_key s)
          | inr (r, e) ↦
              let (id, same, found, owner, fresh) = restored-owner now public_key last s r e in
              let m : or_else last "" ≡ r.session_id =
                ap (λ o. or_else o "") same ∙ sym (keyed id r found) in
              rw (resumed r e, m, ← owner)
                (stored (restored_session store config now r) r.public_key s)
        ]

    -- A session of another user cannot be taken over: a new one is made, and that of the other
    -- user stays as it was.
    pub create_or_restore_session-foreign :
        (id : String) (r : RealtimeSessionRecord)
        → last ≡ some id
        → get_session store config id s ≡ some r
        → r.public_key ≢ public_key
        → new_id ≢ id
        → (outcome.0.restored ≡ false)
          × (outcome.0.session.session_id ≡ new_id)
          × (get_session store config id outcome.1 ≡ some r)
    create_or_restore_session-foreign id r same found other fresh =
        let e : to_restore store config now public_key last s ≡ none =
          ground (arith, string_eq.beq_iff r.public_key public_key) in
        rw (created e) (
          refl,
          refl,
          get-persist (created_session store config now public_key new_id) public_key new_id s id
              ∙ ground (arith, string_eq.beq_iff new_id id),
        )
