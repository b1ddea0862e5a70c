-- ===== src/PeerNetwork/Retries.antt =====
-- The deletions that other servers have not confirmed yet, in
-- src/modules/peer_network/peer_network.service.ts. The answers of the servers are a parameter.
use open_chat_be.Prelude.{
  Bool, IsUnique, List, Map, Option, Option-cases, String, [], ap, arith, false, has-lookup,
  if◌then◌else◌, inl, inr, insert, keep, leb, lookup, ltb, nat_eq, none, not, refl, some, string_eq,
  suc, to_set, zero, ℕ, ◌&&◌, ◌+◌, ◌<◌, ◌==◌, ◌∙◌, ◌∷◌, ◌≡◌, ◌≤◌,
}
use open_chat_be.Text.{is_empty}
use open_chat_be.Realtime.Keys.{◌⧺◌}
use open_chat_be.DirectMessages.Types.{InterServerDmDeleteRequestPayload}

pub record DeleteRetryItem : Type 0 where
  pub attempts : ℕ
  pub next_attempt_at_ms : ℕ
  pub payload : InterServerDmDeleteRequestPayload
  pub peer_id : String

pub record DeleteRetryConfig : Type 0 where
  pub delete_max_retries : ℕ
  pub delete_retry_interval_ms : ℕ

abbrev pub RetryQueue : Type 0
RetryQueue = Map String DeleteRetryItem

module _ (config : DeleteRetryConfig)
    (send_dm_delete_request_to_peer : String → InterServerDmDeleteRequestPayload → Bool) where
  unfoldable pub enqueue_dm_delete_retry :
      ℕ → String → InterServerDmDeleteRequestPayload → ℕ → RetryQueue → RetryQueue
  enqueue_dm_delete_retry now peer_id payload attempts queue =
      insert (payload.message_id ⧺ ":" ⧺ peer_id)
        (record {
          attempts = attempts;
          next_attempt_at_ms = now + config.delete_retry_interval_ms;
          payload = payload;
          peer_id = peer_id;
        })
        queue

  -- What is left of an item after the queue was processed.
  unfoldable pub retry_item : ℕ → DeleteRetryItem → Option DeleteRetryItem
  retry_item now item =
      if ltb now item.next_attempt_at_ms
      then some item
      else if send_dm_delete_request_to_peer item.peer_id item.payload
      then none
      else if leb config.delete_max_retries (item.attempts + 1)
      then none
      else some (record item {
        attempts = item.attempts + 1;
        next_attempt_at_ms = now + config.delete_retry_interval_ms;
      })

  abbrev keep_entry : String → Option DeleteRetryItem → RetryQueue → RetryQueue
  keep_entry key none queue = queue
  keep_entry key (some item) queue = (key, item) ∷ queue

  unfoldable pub process_inter_server_dm_delete_retry_queue : ℕ → RetryQueue → RetryQueue
  process_inter_server_dm_delete_retry_queue now [] = []
  process_inter_server_dm_delete_retry_queue now ((key, item) ∷ rest) =
      keep_entry key (retry_item now item) (process_inter_server_dm_delete_retry_queue now rest)

  abbrev is_target : String → Bool
  is_target peer_id = not (is_empty peer_id) && not (peer_id == "unknown_peer")

  abbrev pub target_peer_ids : InterServerDmDeleteRequestPayload → List String
  target_peer_ids input =
      keep is_target (to_set (input.origin_server_peer_id ∷ input.replica_peer_ids))

  unfoldable pub delete_at_all :
      ℕ → InterServerDmDeleteRequestPayload → List String → RetryQueue → RetryQueue
  delete_at_all now input [] queue = queue
  delete_at_all now input (peer_id ∷ rest) queue = delete_at_all now input rest (
      if send_dm_delete_request_to_peer peer_id input
      then queue
      else enqueue_dm_delete_retry now peer_id input 0 queue)

  unfoldable pub send_targeted_dm_delete :
      ℕ → InterServerDmDeleteRequestPayload → RetryQueue → RetryQueue
  unfolding delete_at_all
  send_targeted_dm_delete now input queue = delete_at_all now input (target_peer_ids input) queue

  abbrev again : ℕ → Option DeleteRetryItem → Option DeleteRetryItem
  again now none = none
  again now (some item) = retry_item now item

  -- The times of rounds that come as soon as an item is due.
  abbrev pub due_at : ℕ → ℕ → ℕ
  due_at zero start = start
  due_at (suc n) start = due_at n start + config.delete_retry_interval_ms

  -- What is left of an item after `n` such rounds.
  pub rounds : ℕ → ℕ → Option DeleteRetryItem → Option DeleteRetryItem
  rounds zero start o = o
  rounds (suc n) start o = again (due_at n start) (rounds n start o)

  abbrev attempted : ℕ → ℕ → DeleteRetryItem → DeleteRetryItem
  attempted n at item = record item { attempts = item.attempts + n; next_attempt_at_ms = at }

  retry_item-refused :
      (now : ℕ) (item : DeleteRetryItem)
      → send_dm_delete_request_to_peer item.peer_id item.payload ≡ false
      → item.next_attempt_at_ms ≡ now
      → item.attempts + 1 < config.delete_max_retries
      → retry_item now item ≡ some (attempted 1 (now + config.delete_retry_interval_ms) item)
  unfolding retry_item
  retry_item-refused now item refused due h = ground (arith, refused)

  retry_item-last :
      (now : ℕ) (item : DeleteRetryItem)
      → send_dm_delete_request_to_peer item.peer_id item.payload ≡ false
      → item.next_attempt_at_ms ≡ now
      → config.delete_max_retries ≤ item.attempts + 1
      → retry_item now item ≡ none
  unfolding retry_item
  retry_item-last now item refused due h = ground (arith, refused)

  attempts_after :
      (n start : ℕ) (item : DeleteRetryItem)
      → send_dm_delete_request_to_peer item.peer_id item.payload ≡ false
      → item.next_attempt_at_ms ≡ start
      → item.attempts + n < config.delete_max_retries
      → rounds n start (some item) ≡ some (attempted n (due_at n start) item)
  unfolding rounds
  attempts_after zero start item refused due h = ground arith
  attempts_after (suc n) start item refused due h =
      ap (λ o. again (due_at n start) o) (attempts_after n start item refused due (omega arith))
      ∙ retry_item-refused (due_at n start) (attempted n (due_at n start) item) refused refl
          (omega arith)
      ∙ ground arith

  -- A server that never confirms a deletion is asked until the number of attempts is the limit: if
  -- there are `n` more to come, then the item is still there after fewer rounds, with the attempts
  -- counted, and it is gone after the next.
  pub rounds-exhausted :
      (n k start : ℕ) (item : DeleteRetryItem)
      → send_dm_delete_request_to_peer item.peer_id item.payload ≡ false
      → item.next_attempt_at_ms ≡ start
      → item.attempts + suc n ≡ config.delete_max_retries
      → k ≤ n
      → (rounds k start (some item)
          ≡ some
              (record item { attempts = item.attempts + k; next_attempt_at_ms = due_at k start }))
        × (rounds (suc n) start (some item) ≡ none)
  unfolding rounds
  rounds-exhausted n k start item refused due h below = (
    attempts_after k start item refused due (omega arith),
    ap (λ o. again (due_at n start) o) (attempts_after n start item refused due (omega arith))
        ∙ retry_item-last (due_at n start) (attempted n (due_at n start) item) refused refl
            (omega arith),
  )

  -- Each item of the queue is treated alone, whatever the others are: under its key is what the
  -- round leaves of it.
  pub lookup-process :
      (now : ℕ) (key : String) (queue : RetryQueue)
      → IsUnique queue
      → lookup key (process_inter_server_dm_delete_retry_queue now queue)
        ≡ again now (lookup key queue)
  unfolding lookup process_inter_server_dm_delete_retry_queue
  lookup-process now key [] u = refl
  lookup-process now key ((known, item) ∷ rest) u =
      let later = lookup-process now key rest u.1 in
      let absent = has-lookup known rest in
      elim (Option-cases (retry_item now item)) [
        | inl e ↦ ground (arith, e, later, absent, u.0, string_eq.beq_iff known key)
        | inr (left, e) ↦ ground (arith, e, later, absent, u.0, string_eq.beq_iff known key)
      ]
