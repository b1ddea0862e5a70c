-- ===== src/Realtime/Delivery/Replay.antt =====
-- What a client that comes back is sent.
use open_chat_be.Prelude.{
  Bool, IsSortedBy, List, String, [], arith, if◌then◌else◌, map, nat_eq, refl, some, sort,
  sort-IsSortedBy, sort-perm, string_eq, ℕ, ◌∷◌, ◌≡◌,
}
use mathlib.Core.List.{Perm}
use open_chat_be.Realtime.Types.{ReliableEnvelope, send, envelope}
use open_chat_be.Realtime.Redis.{HashCommands}
use open_chat_be.Realtime.Connection.{Connections, get_client_by_session_id, send_json}
use open_chat_be.Realtime.Keys.{create_session_pending_key}
use open_chat_be.Realtime.Delivery.{
  schedule_retry, replay_all, replay_pending_for_session, Delivery, DeliveryConfig, sent_before,
}

module _ {S P : Type 0} (commands : HashCommands S (ReliableEnvelope P)) (config : DeliveryConfig)
    (c : Connections) (is_open : ℕ → Bool) (session_id : String) (client : ℕ) where
  replay_all-out :
      (es : List (ReliableEnvelope P)) (d : Delivery S)
      → (replay_all commands config is_open client session_id es d).1
        ≡ (if is_open client then map (λ e. send client (envelope e)) es else [])
  unfolding replay_all send_json
  replay_all-out [] d = ground arith
  replay_all-out (e ∷ es) d =
      ground (
        arith,
        replay_all-out es (schedule_retry commands config session_id e.event_id e.attempt d),
      )

  replay_all-redis :
      (es : List (ReliableEnvelope P)) (d : Delivery S)
      → (replay_all commands config is_open client session_id es d).0.redis ≡ d.redis
  unfolding replay_all schedule_retry
  replay_all-redis [] d = refl
  replay_all-redis (e ∷ es) d =
      replay_all-redis es (schedule_retry commands config session_id e.event_id e.attempt d)

  sorted :
      (es : List (ReliableEnvelope P))
      → IsSortedBy (sent_before commands config) (sort (sent_before commands config) es)
  sorted es =
      sort-IsSortedBy (sent_before commands config) (λ x y h. ground arith)
        (λ x y z h k. ground arith) es

  -- When a client comes back, the first of the sockets of its session on this node is sent every
  -- pending envelope once, the older before the newer, if that socket is open; if it is not, no socket
  -- is sent anything. The envelopes all stay pending.
  pub replay_pending_for_session-sends :
      (d : Delivery S)
      → get_client_by_session_id session_id c ≡ some client
      → (es : List (ReliableEnvelope P)) × ((replay_pending_for_session commands config c is_open
            session_id d).1
          ≡ (if is_open client then map (λ e. send client (envelope e)) es else []))
        × Perm (commands.hgetall (create_session_pending_key session_id) d.redis) es
        × IsSortedBy (sent_before commands config) es
        × ((replay_pending_for_session commands config c is_open session_id d).0.redis ≡ d.redis)
  unfolding replay_pending_for_session
  replay_pending_for_session-sends d found =
      let all = commands.hgetall (create_session_pending_key session_id) d.redis in
      let es = sort (sent_before commands config) all in
      (
        es,
        ground (arith, found, replay_all-out es d),
        sort-perm (sent_before commands config) all,
        sorted all,
        ground (arith, found, replay_all-redis es d),
      )
