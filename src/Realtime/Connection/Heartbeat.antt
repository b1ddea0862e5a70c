-- ===== src/Realtime/Connection/Heartbeat.antt =====
-- When the heartbeat gives a silent socket up, and what a round of it does to every socket.
use open_chat_be.Prelude.{
  Bool, List, Map, [], ap, arith, false, leb, lookup, nat_eq, refl, string_eq, suc, true, zero, ℕ,
  ◌<◌, ◌∙◌, ◌∷◌, ◌≡◌,
}
use mathlib.Core.Option
use open_chat_be.Realtime.Types.{Output, terminate}
use open_chat_be.Realtime.Connection.{ConnectionState, beat, beat_all}

abbrev pub is_stale : {P : Type 0} → List (Output P) → Bool
is_stale [] = false
is_stale (terminate k ∷ out) = true
is_stale (_ ∷ out) = is_stale out

-- A socket that has answered, or that nothing was asked of.
abbrev pub IsResponsive : ConnectionState → Type 0
IsResponsive s = (s.authenticated ≡ true) × (s.awaiting_pong ≡ false) × (s.missed_pongs ≡ 0)

module _ (P : Type 0) (limit client : ℕ) (open_now : Bool) where
  -- The state after `n` firings of the heartbeat without a pong.
  pub silent : ℕ → ConnectionState → ConnectionState
  silent zero s = s
  silent (suc n) s = (beat {P = P} limit open_now client (silent n s)).0

  beat_first :
      (s : ConnectionState)
      → IsResponsive s
      → (beat {P = P} limit open_now client s).0
        ≡ record s { awaiting_pong = true; missed_pongs = 0 }
  unfolding beat
  beat_first s h = ground arith

  beat_again :
      (n : ℕ) (s : ConnectionState)
      → IsResponsive s
      → (beat {P = P} limit open_now client (record s { awaiting_pong = true; missed_pongs = n })).0
        ≡ record s { awaiting_pong = true; missed_pongs = suc n }
  unfolding beat
  beat_again n s h = ground arith

  silent-suc :
      (n : ℕ) (s : ConnectionState)
      → IsResponsive s
      → silent (suc n) s ≡ record s { awaiting_pong = true; missed_pongs = n }
  unfolding silent
  silent-suc zero s h = beat_first s h
  silent-suc (suc n) s h =
      ap (λ s'. (beat {P = P} limit open_now client s').0) (silent-suc n s h) ∙ beat_again n s h

  -- Without a pong the socket is terminated by the firing that follows `limit` others, and by no
  -- earlier one.
  pub silent-is_stale :
      (n : ℕ) (s : ConnectionState)
      → 0 < limit
      → IsResponsive s
      → is_stale (beat {P = P} limit open_now client (silent n s)).1 ≡ leb limit n
  unfolding beat
  silent-is_stale zero s pos h = unfold silent in ground arith
  silent-is_stale (suc n) s pos h = rw (silent-suc n s h) (ground arith)

-- A round of the heartbeat beats every socket once and forgets none.
pub lookup-beat_all :
    (P : Type 0) (limit : ℕ) (is_open : ℕ → Bool) (m : Map ℕ ConnectionState) (k : ℕ)
    → lookup k (beat_all {P = P} limit is_open m).0
      ≡ Option.map (λ s. (beat {P = P} limit (is_open k) k s).0) (lookup k m)
unfolding lookup beat_all
lookup-beat_all P limit is_open [] k = refl
lookup-beat_all P limit is_open ((j, s) ∷ m) k =
    ground (arith, nat_eq.beq_iff j k, lookup-beat_all P limit is_open m k)
