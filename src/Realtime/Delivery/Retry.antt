-- ===== src/Realtime/Delivery/Retry.antt =====
-- How often an envelope is sent again, and when it is given up.
use open_chat_be.Prelude.{
  Bool, List, Option, String, arith, beq_refl, erase, lookup, lookup-erase_self, lookup-insert_self,
  nat_eq, none, some, string_eq, suc, zero, ℕ, ◌+◌, ◌<◌, ◌∙◌, ◌≡◌, ◌≤◌,
}
use open_chat_be.Realtime.Types.{ReliableEnvelope, Output, envelope, retry_exhausted}
use open_chat_be.Realtime.Redis.{HashCommands}
use open_chat_be.Realtime.Connection.{Connections, get_client_by_session_id}
use open_chat_be.Realtime.Keys.{create_session_pending_key}
use open_chat_be.Realtime.Delivery.{
  backoff, retried, retry_envelope, store_pending_envelope, handle_retry_timeout, create_timer_key,
  send_to, Delivery, DeliveryConfig, RetryTimer,
}

module _ {S P : Type 0} (commands : HashCommands S (ReliableEnvelope P)) (config : DeliveryConfig)
    (c : Connections) (is_open : ℕ → Bool) (session_id event_id : String) where
  abbrev pub pending : Delivery S → Option (ReliableEnvelope P)
  pending d = commands.hget (create_session_pending_key session_id) event_id d.redis

  abbrev pub timer : Delivery S → Option RetryTimer
  timer d = lookup (create_timer_key session_id event_id) d.retry_timers

  -- A timer with the delay for the given number of attempts.
  abbrev pub delayed : ℕ → RetryTimer
  delayed attempt = record {
    session_id = session_id;
    event_id = event_id;
    backoff_ms = backoff commands config attempt;
  }

  abbrev pub fire : Delivery S → Delivery S × List (Output P)
  fire d = handle_retry_timeout commands config c is_open session_id event_id d

  -- The state after `n` firings of the timer without an acknowledgement.
  pub timeouts : ℕ → Delivery S → Delivery S
  timeouts zero d = d
  timeouts (suc n) d = (fire (timeouts n d)).0

  stored :
      (e : ReliableEnvelope P) (d : Delivery S)
      → e.event_id ≡ event_id
      → pending (store_pending_envelope commands config session_id e d) ≡ some e
  stored e d h =
      let key = create_session_pending_key session_id in
      commands.hget-pexpire key config.session_ttl_ms (commands.hset key e.event_id e d.redis) key
        event_id
      ∙ ground (
        arith,
        h,
        commands.hget-hset key e.event_id e d.redis key event_id,
        beq_refl key,
        string_eq.beq_iff e.event_id event_id,
      )

  -- Below the limit a firing sends the envelope with its number raised by one, keeps that, and
  -- starts the timer again.
  pub fire_again :
      (e : ReliableEnvelope P) (d : Delivery S)
      → pending d ≡ some e
      → e.event_id ≡ event_id
      → e.attempt < config.max_retries
      → (pending (fire d).0 ≡ some (retried commands config e))
        × (timer (fire d).0 ≡ some (delayed (e.attempt + 1)))
        × ((fire d).1
            ≡ send_to commands config is_open
                (get_client_by_session_id session_id c)
                (envelope (retried commands config e)))
  unfolding handle_retry_timeout retry_envelope
  fire_again e d found named below = (
    ground (arith, found, stored (retried commands config e) d named),
    ground (
      arith,
      found,
      lookup-insert_self (create_timer_key session_id event_id) (delayed (e.attempt + 1))
          (erase (create_timer_key session_id event_id) d.retry_timers),
    ),
    ground (arith, found),
  )

  -- At the limit it is dropped, its timer is gone, and the client is told.
  pub fire_last :
      (e : ReliableEnvelope P) (d : Delivery S)
      → pending d ≡ some e
      → config.max_retries ≤ e.attempt
      → (pending (fire d).0 ≡ none)
        × (timer (fire d).0 ≡ none)
        × ((fire d).1
            ≡ send_to commands config is_open
                (get_client_by_session_id session_id c)
                (retry_exhausted event_id session_id))
  unfolding handle_retry_timeout retry_envelope
  fire_last e d found over =
      let key = create_session_pending_key session_id in
      (
        ground (
          arith,
          found,
          commands.hget-hdel key event_id d.redis key event_id,
          beq_refl key,
          beq_refl event_id,
        ),
        ground
            (arith, found, lookup-erase_self (create_timer_key session_id event_id) d.retry_timers),
        ground (arith, found),
      )
