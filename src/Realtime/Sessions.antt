-- ===== src/Realtime/Sessions.antt =====
-- src/modules/realtime/services/realtime_session.service.ts: the session records in Redis, and for
-- each user the set of its active sessions. `now` is one reading of the clock for a call.
pub mod Restore
pub mod Active
use open_chat_be.Prelude.{
  Bool, List, Option, String, [], contains, false, if◌then◌else◌, keep, leb, nat_eq, none, not,
  or_else, some, string_eq, true, ℕ, ◌&&◌, ◌+◌, ◌==◌, ◌∷◌,
}
use open_chat_be.Realtime.Types.{RealtimeSessionRecord, active, disconnected, SessionStatus}
use open_chat_be.Realtime.Redis.{SessionStore}
use open_chat_be.Realtime.Keys.{create_session_key, create_user_sessions_key}

pub record SessionConfig : Type 0 where
  pub node_id : String
  pub reconnect_grace_ms : ℕ

pub record SessionResult : Type 0 where
  pub restored : Bool
  pub session : RealtimeSessionRecord

abbrev pub is_active : SessionStatus → Bool
is_active active = true
is_active disconnected = false

module _ {S : Type 0} (store : SessionStore S RealtimeSessionRecord) (config : SessionConfig) where
  open store use {strings.{get, set}, sets.{smembers, sadd, srem}}

  abbrev pub get_session_ttl_ms : ℕ
  get_session_ttl_ms = config.reconnect_grace_ms + 30000

  abbrev pub build_reconnect_expiry : ℕ → ℕ
  build_reconnect_expiry now = now + config.reconnect_grace_ms

  abbrev pub get_session : String → S → Option RealtimeSessionRecord
  get_session session_id s = get (create_session_key session_id) s

  abbrev pub persist_session : RealtimeSessionRecord → S → S
  persist_session session s =
      set (create_session_key session.session_id) session get_session_ttl_ms s

  abbrev pub add_active_session : String → String → S → S
  add_active_session public_key session_id s =
      sadd (create_user_sessions_key public_key) (session_id ∷ []) s

  abbrev pub remove_active_session : String → String → S → S
  remove_active_session public_key session_id s =
      srem (create_user_sessions_key public_key) (session_id ∷ []) s

  abbrev pub restored_session : ℕ → RealtimeSessionRecord → RealtimeSessionRecord
  restored_session now existing = record existing {
    connected_at = now;
    last_seen_at = now;
    node_id = config.node_id;
    reconnect_expires_at = build_reconnect_expiry now;
    status = active;
  }

  abbrev created_session : ℕ → String → String → RealtimeSessionRecord
  created_session now public_key new_id = record {
    connected_at = now;
    last_seen_at = now;
    node_id = config.node_id;
    public_key = public_key;
    reconnect_expires_at = build_reconnect_expiry now;
    session_id = new_id;
    status = active;
  }

  -- The existing session, if it is of this user and may still be resumed.
  abbrev restorable : ℕ → String → Option RealtimeSessionRecord → Option RealtimeSessionRecord
  restorable now public_key none = none
  restorable now public_key (some existing) =
      if existing.public_key == public_key && leb now existing.reconnect_expires_at
      then some existing
      else none

  -- `if (last_session_id) { … }`
  abbrev pub to_restore : ℕ → String → Option String → S → Option RealtimeSessionRecord
  to_restore now public_key none s = none
  to_restore now public_key (some last_session_id) s =
      if last_session_id == ""
      then none
      else restorable now public_key (get_session last_session_id s)

  -- `randomUUID()` is `new_id`.
  unfoldable pub create_or_restore_session :
      ℕ → String → String → Option String → S → SessionResult × S
  create_or_restore_session now new_id public_key last_session_id s =
      elim (to_restore now public_key last_session_id s) [
        | some existing ↦ (
          record { restored = true; session = restored_session now existing },
          add_active_session existing.public_key (or_else last_session_id "")
              (persist_session (restored_session now existing) s),
        )
        | none ↦ (
          record { restored = false; session = created_session now public_key new_id },
          add_active_session public_key new_id
              (persist_session (created_session now public_key new_id) s),
        )
      ]

  abbrev touched_session : ℕ → RealtimeSessionRecord → RealtimeSessionRecord
  touched_session now existing = record existing {
    last_seen_at = now;
    reconnect_expires_at = build_reconnect_expiry now;
  }

  unfoldable pub touch_session : ℕ → String → S → Option RealtimeSessionRecord × S
  touch_session now session_id s = elim (get_session session_id s) [
    | none ↦ (none, s)
    | some existing ↦ (
      some (touched_session now existing),
      if is_active existing.status
          then add_active_session existing.public_key session_id
              (persist_session (touched_session now existing) s)
          else persist_session (touched_session now existing) s,
    )
  ]

  abbrev pub disconnected_session : ℕ → RealtimeSessionRecord → RealtimeSessionRecord
  disconnected_session now existing = record existing {
    last_seen_at = now;
    reconnect_expires_at = build_reconnect_expiry now;
    status = disconnected;
  }

  unfoldable pub mark_session_disconnected : ℕ → String → S → Option RealtimeSessionRecord × S
  mark_session_disconnected now session_id s = elim (get_session session_id s) [
    | none ↦ (none, s)
    | some existing ↦
        if not (existing.node_id == config.node_id) && is_active existing.status
        then (some existing, s)
        else (
          some (disconnected_session now existing),
          remove_active_session existing.public_key session_id
              (persist_session (disconnected_session now existing) s),
        )
  ]

  abbrev pub is_active_of : String → Option RealtimeSessionRecord → Bool
  is_active_of public_key none = false
  is_active_of public_key (some session) =
      session.public_key == public_key && is_active session.status

  abbrev active_among : String → S → List String → List String
  active_among public_key s ids = keep (λ id. is_active_of public_key (get_session id s)) ids

  abbrev drop_stale : String → List String → S → S
  drop_stale key [] s = s
  drop_stale key (id ∷ ids) s = srem key (id ∷ ids) s

  unfoldable pub get_active_session_ids : String → S → List String × S
  get_active_session_ids public_key s =
      let key = create_user_sessions_key public_key in
      let session_ids = smembers key s in
      let active_session_ids = active_among public_key s session_ids in
      let stale_session_ids = keep (λ id. not (contains active_session_ids id)) session_ids in
      (active_session_ids, drop_stale key stale_session_ids s)
