-- ===== src/Realtime/Delivery/Acknowledge.antt =====
-- An acknowledged envelope is not sent again.
use open_chat_be.Prelude.{
  Bool, String, [], arith, beq_refl, is_some, lookup-erase_self, nat_eq, none, refl, string_eq, ℕ,
  ◌≡◌, ◌≢◌,
}
use open_chat_be.Realtime.Types.{ReliableEnvelope}
use open_chat_be.Realtime.Redis.{HashCommands}
use open_chat_be.Realtime.Connection.{Connections}
use open_chat_be.Realtime.Keys.{create_session_pending_key}
use open_chat_be.Realtime.Delivery.{
  create_timer_key, handle_retry_timeout, acknowledge, Delivery, DeliveryConfig,
}
use open_chat_be.Realtime.Delivery.Retry.{pending, timer, fire}

module _ {S P : Type 0} (commands : HashCommands S (ReliableEnvelope P)) (config : DeliveryConfig)
    (c : Connections) (is_open : ℕ → Bool) (session_id event_id : String) (d : Delivery S) where
  abbrev pub acked : Delivery S
  acked = (acknowledge commands config session_id event_id d).0

  -- After an acknowledgement nothing is pending for the event and no timer runs; the answer says
  -- whether it was pending; and a timer that fires all the same sends nothing and keeps nothing.
  pub acknowledge-stops :
      (pending commands config c is_open session_id event_id acked ≡ none)
      × (timer commands config c is_open session_id event_id acked ≡ none)
      × ((acknowledge commands config session_id event_id d).1
          ≡ is_some (pending commands config c is_open session_id event_id d))
      × ((fire commands config c is_open session_id event_id acked).1 ≡ [])
      × (pending commands config c is_open session_id event_id
            (fire commands config c is_open session_id event_id acked).0
          ≡ none)
  unfolding acknowledge handle_retry_timeout
  acknowledge-stops =
      let key = create_session_pending_key session_id in
      let gone : pending commands config c is_open session_id event_id acked ≡ none = ground (
        arith,
        commands.hget-hdel key event_id d.redis key event_id,
        beq_refl key,
        beq_refl event_id,
      ) in
      (
        gone,
        lookup-erase_self (create_timer_key session_id event_id) d.retry_timers,
        refl,
        ground (arith, gone),
        ground (arith, gone),
      )

  -- The other events of the session stay pending.
  pub acknowledge-others :
      (other : String)
      → event_id ≢ other
      → pending commands config c is_open session_id other acked
        ≡ pending commands config c is_open session_id other d
  unfolding acknowledge
  acknowledge-others other h =
      let key = create_session_pending_key session_id in
      ground (
        arith,
        commands.hget-hdel key event_id d.redis key other,
        beq_refl key,
        string_eq.beq_iff event_id other,
      )
