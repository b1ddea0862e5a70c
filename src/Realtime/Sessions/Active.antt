-- ===== src/Realtime/Sessions/Active.antt =====
-- The set of a user's active sessions, and the end of a session.
use open_chat_be.Prelude.{
  Bool, List, Option, String, [], ap, arith, beq_refl, contains, contains-keep, false, keep, nat_eq,
  none, not, refl, some, string_eq, sym, true, ℕ, ◌&&◌, ◌↔◌, ◌∙◌, ◌∷◌, ◌≡◌, ◌≢◌, ◌⊎◌,
}
use mathlib.Core.Option.{some-injective}
use open_chat_be.Realtime.Types.{SessionStatus, RealtimeSessionRecord, active, disconnected}
use open_chat_be.Realtime.Redis.{SessionStore}
use open_chat_be.Realtime.Keys.{create_session_key, create_user_sessions_key}
use open_chat_be.Realtime.Sessions.{
  get_session_ttl_ms, persist_session, disconnected_session, is_active_of, remove_active_session,
  mark_session_disconnected, get_active_session_ids, get_session, SessionConfig, active_among,
  drop_stale, is_active,
}

both : (a b : Bool) → (a && b) ≡ true → (a ≡ true) × (b ≡ true)
both a b h = (ground arith, ground arith)

together : (a b : Bool) → a ≡ true → b ≡ true → (a && b) ≡ true
together a b h k = ground arith

module _ {S : Type 0} (store : SessionStore S RealtimeSessionRecord) (config : SessionConfig) where
  open store use {strings.{get, set}, sets.{smembers, sadd, srem}}

  smembers-drop_stale :
      (key : String) (ids : List String) (s : S) (id : String)
      → contains (smembers key (drop_stale store config key ids s)) id
        ≡ (not (contains ids id) && contains (smembers key s) id)
  smembers-drop_stale key [] s id = unfold contains in ground arith
  smembers-drop_stale key (x ∷ ids) s id =
      ground (arith, store.sets.smembers-srem key key (x ∷ ids) s id, beq_refl key)

  get-drop_stale :
      (key : String) (ids : List String) (id : String) (s : S)
      → get_session store config id (drop_stale store config key ids s)
        ≡ get_session store config id s
  get-drop_stale key [] id s = refl
  get-drop_stale key (x ∷ ids) id s = store.get-srem key (create_session_key id) (x ∷ ids) s

  module _ (public_key : String) (s : S) where
    abbrev pub active_in : List String × S
    active_in = get_active_session_ids store config public_key s

    contains-active :
        (id : String)
        → contains active_in.0 id ≡ (
            is_active_of store config public_key (get_session store config id s)
            && contains (smembers (create_user_sessions_key public_key) s) id)
    unfolding get_active_session_ids
    contains-active id =
        contains-keep (λ i. is_active_of store config public_key (get_session store config i s))
          (smembers (create_user_sessions_key public_key) s) id

    -- The user's set then holds just the sessions that were answered, and no record has changed.
    get_active_session_ids-prunes :
        (id : String)
        → (contains (smembers (create_user_sessions_key public_key) active_in.1) id
            ≡ contains active_in.0 id)
          × (get_session store config id active_in.1 ≡ get_session store config id s)
    unfolding get_active_session_ids
    get_active_session_ids-prunes id =
        let key = create_user_sessions_key public_key in
        let ids = smembers key s in
        let act = active_among store config public_key s ids in
        let stale = keep (λ i. not (contains act i)) ids in
        (
          ground (
            arith,
            smembers-drop_stale key stale s id,
            contains-keep (λ i. not (contains act i)) ids id,
            contains-keep (λ i. is_active_of store config public_key (get_session store config i s))
                ids id,
          ),
          get-drop_stale key stale id s,
        )

    active_status : (x : SessionStatus) → is_active x ≡ true → x ≡ active
    active_status active h = refl
    active_status disconnected h = absurd cc

    active_record :
        (o : Option RealtimeSessionRecord)
        → (is_active_of store config public_key o ≡ true) ↔ (
            (r : RealtimeSessionRecord) × (o ≡ some r)
            × (r.public_key ≡ public_key)
            × (r.status ≡ active))
    active_record none = (λ h. absurd cc, λ (r, found, _, _). absurd cc)
    active_record (some r) = (
      λ h. (
        r,
        refl,
        ground (arith, h, string_eq.beq_iff r.public_key public_key),
        active_status r.status (ground (arith, h)),
      ),
      λ (x, found, mine, live).
          let same : r ≡ x = some-injective r x found in
          ground (
            arith,
            ap (λ (y : RealtimeSessionRecord). y.public_key) same ∙ mine,
            ap (λ (y : RealtimeSessionRecord). y.status) same ∙ live,
            string_eq.beq_iff r.public_key public_key,
          ),
    )

    -- A session is in the answer just if it is in the user's set and there is a record of it that is
    -- the user's and active. The user's set then holds just the sessions of the answer, and no record
    -- has changed.
    pub get_active_session_ids-exact :
        (id : String)
        → ((contains active_in.0 id ≡ true) ↔ (
            (contains (smembers (create_user_sessions_key public_key) s) id ≡ true)
            × (r : RealtimeSessionRecord) × (get_session store config id s ≡ some r)
            × (r.public_key ≡ public_key)
            × (r.status ≡ active)))
          × (contains (smembers (create_user_sessions_key public_key) active_in.1) id
              ≡ contains active_in.0 id)
          × (get_session store config id active_in.1 ≡ get_session store config id s)
    get_active_session_ids-exact id =
        let exact = contains-active id in
        let record_of = active_record (get_session store config id s) in
        let (pruned, same) = get_active_session_ids-prunes id in
        (
          (
            λ h.
                let (is_live, inside) = both _ _ (sym exact ∙ h) in
                let (r, found, mine, live) = record_of.0 is_live in (inside, r, found, mine, live),
            λ (there, r, found, mine, live).
                exact ∙ together _ _ (record_of.1 (r, found, mine, live)) there,
          ),
          pruned,
          same,
        )

  -- A session that is active on another node is left alone by this one.
  pub mark_session_disconnected-elsewhere :
      (now : ℕ) (session_id : String) (s : S) (r : RealtimeSessionRecord)
      → get_session store config session_id s ≡ some r
      → r.node_id ≢ config.node_id
      → r.status ≡ active
      → mark_session_disconnected store config now session_id s ≡ (some r, s)
  unfolding mark_session_disconnected
  mark_session_disconnected-elsewhere now session_id s r e n a =
      ground (arith, e, a, string_eq.beq_iff r.node_id config.node_id)

  marked :
      (now : ℕ) (session_id : String) (s : S) (r : RealtimeSessionRecord)
      → get_session store config session_id s ≡ some r
      → (r.node_id ≡ config.node_id) ⊎ (r.status ≡ disconnected)
      → (mark_session_disconnected store config now session_id s).1
        ≡ remove_active_session store config r.public_key session_id
            (persist_session store config (disconnected_session store config now r) s)
  unfolding mark_session_disconnected
  marked now session_id s r e h = ground (arith, e, h, string_eq.beq_iff r.node_id config.node_id)

  srem_self : (key m : String) (s : S) → contains (smembers key (srem key (m ∷ []) s)) m ≡ false
  unfolding contains
  srem_self key m s =
      ground (arith, store.sets.smembers-srem key key (m ∷ []) s m, beq_refl key, beq_refl m)

  -- Any other session that exists is marked, keeps its owner, may be resumed for the period of
  -- grace, and leaves the set of the active ones.
  pub mark_session_disconnected-marks :
      (now : ℕ) (session_id : String) (s : S) (r : RealtimeSessionRecord)
      → get_session store config session_id s ≡ some r
      → r.session_id ≡ session_id
      → (r.node_id ≡ config.node_id) ⊎ (r.status ≡ disconnected)
      → let s' = (mark_session_disconnected store config now session_id s).1 in
        (get_session store config session_id s' ≡ some (disconnected_session store config now r))
        × (contains (smembers (create_user_sessions_key r.public_key) s') session_id ≡ false)
  mark_session_disconnected-marks now session_id s r e keyed h =
      rw (marked now session_id s r e h) (
        store.get-srem (create_user_sessions_key r.public_key) (create_session_key session_id)
              (session_id ∷ []) _
            ∙ ground (
              arith,
              keyed,
              beq_refl (create_session_key session_id),
              store.strings.get-set (create_session_key r.session_id)
                  (create_session_key session_id) (disconnected_session store config now r)
                  (get_session_ttl_ms store config) s,
            ),
        srem_self (create_user_sessions_key r.public_key) session_id _,
      )
