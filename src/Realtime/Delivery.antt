-- ===== src/Realtime/Delivery.antt =====
-- src/modules/realtime/services/realtime_delivery.service.ts: envelopes that are kept in Redis and
-- sent again until the client acknowledges them or the retries run out. A retry timer is the entry
-- of `retry_timers` with the session and event that its firing names.
pub mod Retry
pub mod Acknowledge
pub mod Replay
use open_chat_be.Prelude.{
  Bool, List, Map, Option, String, [], erase, get_elem?, if◌then◌else◌, insert, is_some, leb,
  length, min, nat_eq, none, or_else, some, sort, string_eq, true, ℕ, ◌++◌, ◌+◌, ◌-◌, ◌∷◌,
}
use open_chat_be.Realtime.Types.{
  ReliableEnvelope, ReliableEnvelopeInput, Output, send, Frame, envelope, retry_exhausted,
}
use open_chat_be.Realtime.Redis.{HashCommands}
use open_chat_be.Realtime.Connection.{Connections, get_client_by_session_id, send_json}
use open_chat_be.Realtime.Keys.{create_session_pending_key, ◌⧺◌}

pub record DeliveryConfig : Type 0 where
  pub ack_timeout_ms : ℕ
  pub max_retries : ℕ
  pub retry_backoff_ms : List ℕ
  pub session_ttl_ms : ℕ

pub record RetryTimer : Type 0 where
  pub session_id : String
  pub event_id : String
  -- `undefined` if the list of delays is empty
  pub backoff_ms : Option ℕ

pub record Delivery (S : Type 0) : Type 0 where
  pub retry_timers : Map String RetryTimer
  pub redis : S

abbrev pub create_timer_key : String → String → String
create_timer_key session_id event_id = session_id ⧺ ":" ⧺ event_id

unfoldable pub create_envelope :
    {P : Type 0} → DeliveryConfig → ℕ → String → ReliableEnvelopeInput P → ReliableEnvelope P
create_envelope config now new_id input = record {
  ack_timeout_ms = or_else input.ack_timeout_ms config.ack_timeout_ms;
  attempt = 0;
  event_id = or_else input.event_id new_id;
  payload = input.payload;
  requires_ack = or_else input.requires_ack true;
  room_id = input.room_id;
  sent_at = now;
  type = input.type;
}

module _ {S P : Type 0} (commands : HashCommands S (ReliableEnvelope P))
    (config : DeliveryConfig) where
  open commands use {hget, hset, hdel, hgetall, pexpire}

  abbrev pub store_pending_envelope : String → ReliableEnvelope P → Delivery S → Delivery S
  store_pending_envelope session_id e d =
      let key = create_session_pending_key session_id in
      record d { redis = pexpire key config.session_ttl_ms (hset key e.event_id e d.redis) }

  abbrev pub clear_retry_timer : String → String → Delivery S → Delivery S
  clear_retry_timer session_id event_id d = record d {
    retry_timers = erase (create_timer_key session_id event_id) d.retry_timers;
  }

  -- `onModuleDestroy`: no timer runs any more
  abbrev on_module_destroy : Delivery S → Delivery S
  on_module_destroy d = record d { retry_timers = [] }

  abbrev pub backoff : ℕ → Option ℕ
  backoff attempt =
      get_elem? config.retry_backoff_ms (min attempt (length config.retry_backoff_ms - 1))

  unfoldable pub schedule_retry : String → String → ℕ → Delivery S → Delivery S
  schedule_retry session_id event_id attempt d = record d {
    retry_timers =
        insert (create_timer_key session_id event_id)
          (record { session_id = session_id; event_id = event_id; backoff_ms = backoff attempt })
          (clear_retry_timer session_id event_id d).retry_timers;
  }

  -- What the socket of a session is sent, if it has one that is open.
  abbrev pub send_to : (ℕ → Bool) → Option ℕ → Frame P → List (Output P)
  send_to is_open none frame = []
  send_to is_open (some client) frame = send_json is_open client frame

  unfoldable pub deliver_to_session :
      Connections
      → (ℕ → Bool)
      → String
      → ReliableEnvelope P
      → Delivery S
      → Delivery S × List (Output P)
  unfolding schedule_retry
  deliver_to_session c is_open session_id e d = elim (get_client_by_session_id session_id c) [
    | none ↦ (d, [])
    | some client ↦ (
      if e.requires_ack
          then schedule_retry session_id e.event_id e.attempt
              (store_pending_envelope session_id e d)
          else d,
      send_json is_open client (envelope e),
    )
  ]

  -- HDEL answers how many fields it deleted.
  unfoldable pub acknowledge : String → String → Delivery S → Delivery S × Bool
  acknowledge session_id event_id d =
      let key = create_session_pending_key session_id in
      (
        clear_retry_timer session_id event_id (record d { redis = hdel key event_id d.redis }),
        is_some (hget key event_id d.redis),
      )

  -- `left.sent_at.localeCompare(right.sent_at)`, on dates
  abbrev pub sent_before : ReliableEnvelope P → ReliableEnvelope P → Bool
  sent_before left right = leb left.sent_at right.sent_at

  unfoldable pub replay_all :
      (ℕ → Bool)
      → ℕ
      → String
      → List (ReliableEnvelope P)
      → Delivery S
      → Delivery S × List (Output P)
  replay_all is_open client session_id [] d = (d, [])
  replay_all is_open client session_id (e ∷ es) d =
      let (d', out) =
        replay_all is_open client session_id es
          (schedule_retry session_id e.event_id e.attempt d) in
      (d', send_json is_open client (envelope e) ++ out)

  unfoldable pub replay_pending_for_session :
      Connections → (ℕ → Bool) → String → Delivery S → Delivery S × List (Output P)
  replay_pending_for_session c is_open session_id d =
      let envelopes = sort sent_before (hgetall (create_session_pending_key session_id) d.redis) in
      elim (get_client_by_session_id session_id c) [
        | none ↦ (d, [])
        | some client ↦ replay_all is_open client session_id envelopes d
      ]

  unfoldable pub touch_pending_ttl : String → Delivery S → Delivery S
  touch_pending_ttl session_id d = record d {
    redis = pexpire (create_session_pending_key session_id) config.session_ttl_ms d.redis;
  }

  abbrev pub retried : ReliableEnvelope P → ReliableEnvelope P
  retried e = record e { attempt = e.attempt + 1 }

  -- What the firing of a retry timer does with the envelope that it finds.
  unfoldable pub retry_envelope :
      Connections
      → (ℕ → Bool)
      → String
      → String
      → ReliableEnvelope P
      → Delivery S
      → Delivery S × List (Output P)
  unfolding schedule_retry
  retry_envelope c is_open session_id event_id e d =
      let client = get_client_by_session_id session_id c in
      let key = create_session_pending_key session_id in
      if leb config.max_retries e.attempt
      then (
        clear_retry_timer session_id event_id (record d { redis = hdel key event_id d.redis }),
        send_to is_open client (retry_exhausted event_id session_id),
      )
      else (
        schedule_retry session_id event_id (e.attempt + 1)
            (store_pending_envelope session_id (retried e) d),
        send_to is_open client (envelope (retried e)),
      )

  unfoldable pub handle_retry_timeout :
      Connections → (ℕ → Bool) → String → String → Delivery S → Delivery S × List (Output P)
  handle_retry_timeout c is_open session_id event_id d =
      elim (hget (create_session_pending_key session_id) event_id d.redis) [
        | none ↦ (clear_retry_timer session_id event_id d, [])
        | some e ↦ retry_envelope c is_open session_id event_id e d
      ]
