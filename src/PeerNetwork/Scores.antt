-- ===== src/PeerNetwork/Scores.antt =====
-- src/modules/peer_network/peer_network.service.ts: what this server has seen of each peer, and the
-- score that it gives it. The subtractions never go below zero before the last one, which the code
-- cuts off there.
use open_chat_be.Prelude.{
  Bool, Map, Option, Option-cases, String, arith, false, if◌then◌else◌, inl, inr, insert, lookup,
  lookup-insert, lookup-insert_self, ltb, min, nat_eq, none, or_else, some, string_eq, true, ℕ, ◌*◌,
  ◌+◌, ◌-◌, ◌==◌, ◌≡◌, ◌≢◌, ◌≤◌,
}

pub record LocalPeerObservation : Type 0 where
  pub connect_count : ℕ
  pub dial_attempt_count : ℕ
  pub dial_failure_count : ℕ
  pub disconnect_count : ℕ
  pub is_currently_connected : Bool
  pub last_event_at_ms : ℕ
  pub last_successful_connect_at_ms : Option ℕ

abbrev pub Observations : Type 0
Observations = Map String LocalPeerObservation

abbrev created_observation : ℕ → LocalPeerObservation
created_observation now = record {
  connect_count = 0;
  dial_attempt_count = 0;
  dial_failure_count = 0;
  disconnect_count = 0;
  is_currently_connected = false;
  last_event_at_ms = now;
  last_successful_connect_at_ms = none;
}

abbrev pub get_peer_observation : ℕ → String → Observations → LocalPeerObservation
get_peer_observation now peer_id m = or_else (lookup peer_id m) (created_observation now)

-- The change of the observation of one peer; `undefined` and "" are no peer.
abbrev note :
    ℕ → Option String → (LocalPeerObservation → LocalPeerObservation) → Observations → Observations
note now none change m = m
note now (some peer_id) change m =
    if peer_id == "" then m else insert peer_id (change (get_peer_observation now peer_id m)) m

abbrev pub connected_at : ℕ → LocalPeerObservation → LocalPeerObservation
connected_at now o = record o {
  connect_count = o.connect_count + 1;
  is_currently_connected = true;
  last_event_at_ms = now;
  last_successful_connect_at_ms = some now;
}

abbrev dial_failed_at : ℕ → LocalPeerObservation → LocalPeerObservation
dial_failed_at now o = record o {
  dial_failure_count = o.dial_failure_count + 1;
  last_event_at_ms = now;
}

abbrev disconnected_at : ℕ → LocalPeerObservation → LocalPeerObservation
disconnected_at now o = record o {
  disconnect_count = o.disconnect_count + 1;
  is_currently_connected = false;
  last_event_at_ms = now;
}

unfoldable pub note_dial_attempt : ℕ → Option String → Observations → Observations
note_dial_attempt now peer_id m =
    note now peer_id
      (λ o. record o { dial_attempt_count = o.dial_attempt_count + 1; last_event_at_ms = now }) m

unfoldable pub note_dial_success : ℕ → Option String → Observations → Observations
note_dial_success now peer_id m = note now peer_id (connected_at now) m

unfoldable pub note_dial_failure : ℕ → Option String → Observations → Observations
note_dial_failure now peer_id m = note now peer_id (dial_failed_at now) m

unfoldable pub note_peer_connected : ℕ → String → Observations → Observations
note_peer_connected now peer_id m =
    if peer_id == "unknown_peer" then m else note now (some peer_id) (connected_at now) m

unfoldable pub note_peer_disconnected : ℕ → String → Observations → Observations
note_peer_disconnected now peer_id m =
    if peer_id == "unknown_peer" then m else note now (some peer_id) (disconnected_at now) m

-- More than 180 seconds since the last success; the clock does not go back.
abbrev is_old : ℕ → Option ℕ → Bool
is_old now none = false
is_old now (some at) = ltb 180000 (now - at)

unfoldable pub score_observation : ℕ → LocalPeerObservation → ℕ
score_observation now o =
    let base =
      70
      + min (o.connect_count * 4) 20
      - min (o.dial_failure_count * 12) 45
      - min (o.disconnect_count * 5) 25 in
    let connected = if o.is_currently_connected then base + 10 else base in
    min 100 (if is_old now o.last_successful_connect_at_ms then connected - 10 else connected)

unfoldable pub compute_local_score_for_peer : ℕ → String → Observations → ℕ
compute_local_score_for_peer now peer_id m = elim (lookup peer_id m) [
  | none ↦ 50
  | some o ↦ score_observation now o
]

-- A score is at most 100.
pub compute_local_score_for_peer-le :
    (now : ℕ) (peer_id : String) (m : Observations)
    → compute_local_score_for_peer now peer_id m ≤ 100
unfolding compute_local_score_for_peer score_observation
compute_local_score_for_peer-le now peer_id m = ground arith

score-connected :
    (now : ℕ) (o : LocalPeerObservation)
    → score_observation now o ≤ score_observation now (connected_at now o)
unfolding score_observation
score-connected now o = ground arith

score-disconnected :
    (now : ℕ) (o : LocalPeerObservation)
    → score_observation now (disconnected_at now o) ≤ score_observation now o
unfolding score_observation
score-disconnected now o = ground arith

score-dial_failed :
    (now : ℕ) (o : LocalPeerObservation)
    → score_observation now (dial_failed_at now o) ≤ score_observation now o
unfolding score_observation
score-dial_failed now o = ground arith

-- A peer that connects is scored at least as high as before, and a peer that was seen before is
-- scored no higher after it disconnects or cannot be dialled; the scores of the others do not change.
pub compute_local_score_for_peer_monotone :
    (now : ℕ) (peer_id other : String) (m : Observations)
    → peer_id ≢ ""
    → peer_id ≢ "unknown_peer"
    → peer_id ≢ other
    → lookup peer_id m ≢ none
    → (compute_local_score_for_peer now peer_id m
        ≤ compute_local_score_for_peer now peer_id (note_peer_connected now peer_id m))
      × (compute_local_score_for_peer now peer_id (note_peer_disconnected now peer_id m)
          ≤ compute_local_score_for_peer now peer_id m)
      × (compute_local_score_for_peer now peer_id (note_dial_failure now (some peer_id) m)
          ≤ compute_local_score_for_peer now peer_id m)
      × (compute_local_score_for_peer now other (note_peer_connected now peer_id m)
          ≡ compute_local_score_for_peer now other m)
unfolding compute_local_score_for_peer note_peer_connected note_peer_disconnected note_dial_failure
compute_local_score_for_peer_monotone now peer_id other m named known apart seen =
    elim (Option-cases (lookup peer_id m)) [
      | inl e ↦ absurd (seen e)
      | inr (o, e) ↦
          let named' = string_eq.beq_iff peer_id "" in
          let known' = string_eq.beq_iff peer_id "unknown_peer" in
          (
            ground (
              arith,
              e,
              named',
              known',
              lookup-insert_self peer_id (connected_at now o) m,
              score-connected now o,
            ),
            ground (
              arith,
              e,
              named',
              known',
              lookup-insert_self peer_id (disconnected_at now o) m,
              score-disconnected now o,
            ),
            ground (
              arith,
              e,
              named',
              known',
              lookup-insert_self peer_id (dial_failed_at now o) m,
              score-dial_failed now o,
            ),
            ground (
              arith,
              e,
              named',
              known',
              lookup-insert peer_id other (connected_at now o) m,
              string_eq.beq_iff peer_id other,
            ),
          )
    ]
