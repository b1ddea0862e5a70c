-- ===== src/Realtime/Connection/Beats.antt =====
-- The heartbeat, a pong and the firing of an authentication timer leave the sockets in their
-- sessions and the other timers as they were.
use open_chat_be.Prelude.{
  Bool, List, Map, Option, Option-cases, [], arith, either, erase, false, inl, inr, lookup,
  lookup-erase, lookup-insert, nat_eq, none, refl, some, string_eq, ℕ, ◌∷◌, ◌≡◌,
}
use open_chat_be.Realtime.Types.{Output}
use open_chat_be.Realtime.Connection.{
  Connections, ConnectionState, beat, beat_all, heartbeat_tick, register_pong,
}
use open_chat_be.Realtime.Connection.Consistency.{IsConsistent}
use open_chat_be.Realtime.Connection.Timers.{AreTimersSound}

module _ (P : Type 0) (limit : ℕ) (is_open : ℕ → Bool) where
  abbrev beaten : ℕ → Option ConnectionState → Option ConnectionState
  beaten client none = none
  beaten client (some s) = some (beat {P = P} limit (is_open client) client s).0

  lookup-beat_all :
      (m : Map ℕ ConnectionState) (k : ℕ)
      → lookup k (beat_all {P = P} limit is_open m).0 ≡ beaten k (lookup k m)
  unfolding beat_all lookup
  lookup-beat_all [] k = refl
  lookup-beat_all ((client, s) ∷ m) k = ground (arith, lookup-beat_all m k, nat_eq.beq_iff client k)

  beat-keeps :
      (open_now : Bool) (client : ℕ) (s : ConnectionState)
      → let s' = (beat {P = P} limit open_now client s).0 in
        (s'.session_id ≡ s.session_id)
        × (s'.auth_timeout ≡ s.auth_timeout)
        × (s'.authenticated ≡ s.authenticated)
        × (s'.public_key ≡ s.public_key)
  unfolding beat
  beat-keeps open_now client s = (ground arith, ground arith, ground arith, ground arith)

  abbrev all_beaten : Connections → Connections
  all_beaten c = record c { client_states = (beat_all {P = P} limit is_open c.client_states).0 }

  all_beaten-IsConsistent : (c : Connections) → IsConsistent c → IsConsistent (all_beaten c)
  all_beaten-IsConsistent c v = record {
    linked = λ s k. elim (Option-cases (lookup k c.client_states)) [
      | inl e ↦ ground (arith, e, v.linked s k, lookup-beat_all c.client_states k)
      | inr (st, e) ↦
          ground
            (arith, e, v.linked s k, lookup-beat_all c.client_states k, beat-keeps (is_open k) k st)
    ];
    nonempty = v.nonempty;
    whole = λ k. elim (Option-cases (lookup k c.client_states)) [
      | inl e ↦ ground (arith, e, lookup-beat_all c.client_states k)
      | inr (st, e) ↦
          ground
            (arith, e, v.whole k, lookup-beat_all c.client_states k, beat-keeps (is_open k) k st)
    ];
  }

  all_beaten-AreTimersSound : (c : Connections) → AreTimersSound c → AreTimersSound (all_beaten c)
  all_beaten-AreTimersSound c v t k h = elim (Option-cases (lookup k c.client_states)) [
    | inl e ↦ ground (arith, e, v t k h, lookup-beat_all c.client_states k)
    | inr (st, e) ↦
        ground (arith, e, v t k h, lookup-beat_all c.client_states k, beat-keeps (is_open k) k st)
  ]

  -- A property that the heartbeat keeps where it runs is kept by its interval.
  pub heartbeat_tick-keeps {ℓ} :
      (Q : Connections → Type ℓ) (c : Connections)
      → Q c
      → Q (all_beaten c)
      → Q (heartbeat_tick {P = P} limit is_open c).0
  unfolding heartbeat_tick
  heartbeat_tick-keeps Q c before after =
      either (λ (r : Connections × List (Output P)). Q r.0) c.heartbeat_running after before

  pub heartbeat_tick-IsConsistent :
      (c : Connections) → IsConsistent c → IsConsistent (heartbeat_tick {P = P} limit is_open c).0
  heartbeat_tick-IsConsistent c v =
      heartbeat_tick-keeps (λ c'. IsConsistent c') c v (all_beaten-IsConsistent c v)

  pub heartbeat_tick-AreTimersSound :
      (c : Connections)
      → AreTimersSound c
      → AreTimersSound (heartbeat_tick {P = P} limit is_open c).0
  heartbeat_tick-AreTimersSound c v =
      heartbeat_tick-keeps (λ c'. AreTimersSound c') c v (all_beaten-AreTimersSound c v)

pub register_pong-AreTimersSound :
    (client : ℕ) (c : Connections) → AreTimersSound c → AreTimersSound (register_pong client c)
register_pong-AreTimersSound client c v = elim (Option-cases (lookup client c.client_states)) [
  | inl e ↦ unfold register_pong in rw (e, register_pong) v
  | inr (st, e) ↦ λ t k h.
      unfold register_pong in
      ground (
        arith,
        e,
        v t k,
        nat_eq.beq_iff client k,
        lookup-insert client k (record st { awaiting_pong = false; missed_pongs = 0 })
            c.client_states,
      )
]

pub erase_timer-IsConsistent :
    (timer : ℕ) (c : Connections)
    → IsConsistent c
    → IsConsistent (record c { timers = erase timer c.timers })
erase_timer-IsConsistent timer c v = record {
  linked = v.linked;
  nonempty = v.nonempty;
  whole = v.whole;
}

pub erase_timer-AreTimersSound :
    (timer : ℕ) (c : Connections)
    → AreTimersSound c
    → AreTimersSound (record c { timers = erase timer c.timers })
erase_timer-AreTimersSound timer c v t k h = v t k (ground (arith, lookup-erase timer t c.timers))
