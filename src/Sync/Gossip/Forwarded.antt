-- ===== src/Sync/Gossip/Forwarded.antt =====
-- What becomes of an event of another server.
use open_chat_be.Prelude.{
  Bool-cases, Map, Option, Option-cases, String, ap, arith, false, has, if◌then◌else◌, inl, inr,
  keep, leb, lookup, lookup-insert_self, nat_eq, none, not, refl, some, string_eq, subst, sym, true,
  ℕ, ◌*◌, ◌+◌, ◌<◌, ◌==◌, ◌∙◌, ◌≡◌, ◌≢◌, ◌≤◌, ◌⊎◌,
}
use open_chat_be.Results.{ok, Result-cases}
use open_chat_be.DirectMessages.Types.{DirectMessage}
use open_chat_be.DirectMessages.Table.{MessageTable}
use open_chat_be.PeerNetwork.Seen.{has-unexpired}
use open_chat_be.Sync.Gossip.{
  DmDeleteGossipEvent, GossipWorld, GossipOutcome, rejected, repeated, applied, failed,
  create_forwarded_event, can_forward, verify_event_signature, handle_event, apply_event,
  should_process_event, cleanup_dedupe_cache,
}

module _ (world : GossipWorld) (ttl_seconds : ℕ) {D : Type 0} (table : MessageTable D) where
  abbrev handled : ℕ → DmDeleteGossipEvent → Map String ℕ → D → GossipOutcome × Map String ℕ × D
  handled now e m d = handle_event world ttl_seconds table now e m d

  after-applied :
      (now : ℕ) (e : DmDeleteGossipEvent) (m : Map String ℕ) (d : D)
      (copy : Option DmDeleteGossipEvent)
      → (handled now e m d).0 ≡ applied copy
      → (verify_event_signature world ttl_seconds e ≡ ok true)
        × ((if can_forward world ttl_seconds e
              then some (create_forwarded_event world ttl_seconds e)
              else none)
            ≡ copy)
        × ((handled now e m d).2
            ≡ table.delete_many (λ (r : DirectMessage). r.id == e.message_id) d)
  unfolding handle_event apply_event
  after-applied now e m d copy h = (ground arith, ground arith, ground arith)

  find-gone :
      (id : String) (d : D)
      → table.find_unique id (table.delete_many (λ (r : DirectMessage). r.id == id) d) ≡ none
  find-gone id d = elim (Option-cases (table.find_unique id d)) [
    | inl missing ↦ table.find-delete_many-none (λ (r : DirectMessage). r.id == id) id d missing
    | inr (row, there) ↦
        table.find-delete_many-some (λ (r : DirectMessage). r.id == id) id row d there
        ∙ ground (arith, (string_eq.beq_iff row.id id).1 (table.find-id id row d there))
  ]

  find-others :
      (id other : String) (d : D)
      → other ≢ id
      → table.find_unique other (table.delete_many (λ (r : DirectMessage). r.id == id) d)
        ≡ table.find_unique other d
  find-others id other d apart = elim (Option-cases (table.find_unique other d)) [
    | inl missing ↦
        table.find-delete_many-none (λ (r : DirectMessage). r.id == id) other d missing
        ∙ sym missing
    | inr (row, there) ↦
        table.find-delete_many-some (λ (r : DirectMessage). r.id == id) other row d there
        ∙ ground (arith, there, table.find-id other row d there, string_eq.beq_iff row.id id)
  ]

  Outcome-cases :
      (o : GossipOutcome)
      → ((copy : Option DmDeleteGossipEvent) × (o ≡ applied copy))
        ⊎ ((copy : Option DmDeleteGossipEvent) → o ≢ applied copy)
  Outcome-cases rejected = inr (λ copy h. cc h)
  Outcome-cases repeated = inr (λ copy h. cc h)
  Outcome-cases (applied copy) = inl (copy, refl)
  Outcome-cases (failed e) = inr (λ copy h. cc h)

  untouched :
      (now : ℕ) (e : DmDeleteGossipEvent) (m : Map String ℕ) (d : D)
      → ((copy : Option DmDeleteGossipEvent) → (handled now e m d).0 ≢ applied copy)
      → (handled now e m d).2 ≡ d
  unfolding handle_event apply_event
  untouched now e m d other =
      elim (Bool-cases (should_process_event world ttl_seconds now e.event_id m).0) [
        | inr seen ↦ ground (arith, seen)
        | inl fresh ↦ elim (Result-cases (verify_event_signature world ttl_seconds e)) [
          | inr (thrown, bad) ↦ ground (arith, fresh, bad)
          | inl (false, bad) ↦ ground (arith, fresh, bad)
          | inl (true, good) ↦ absurd (
              other
                (if can_forward world ttl_seconds e
                  then some (create_forwarded_event world ttl_seconds e)
                  else none)
                (ground (arith, fresh, good)))
        ]
      ]

  -- What an event may do to the queue: a message goes only by an event that its reporter signed, it
  -- alone goes, and what is forwarded is that event with one more hop, as long as there are hops
  -- left. Every other event leaves the queue as it is.
  pub handle_event-applied :
      (now : ℕ) (e : DmDeleteGossipEvent) (m : Map String ℕ) (d : D)
      → ((copy : Option DmDeleteGossipEvent) × ((handled now e m d).0 ≡ applied copy)
          × (verify_event_signature world ttl_seconds e ≡ ok true)
          × (table.find_unique e.message_id (handled now e m d).2 ≡ none)
          × ((id : String)
              → id ≢ e.message_id
              → table.find_unique id (handled now e m d).2 ≡ table.find_unique id d)
          × ((forwarded : DmDeleteGossipEvent)
              → copy ≡ some forwarded
              → (forwarded.hop_count ≡ e.hop_count + 1) × (forwarded.hop_count ≤ e.max_hops)))
        ⊎ ((handled now e m d).2 ≡ d)
  handle_event-applied now e m d = elim (Outcome-cases (handled now e m d).0) [
    | inr other ↦ inr (untouched now e m d other)
    | inl (copy, h) ↦
        let (valid, copied, deleted) = after-applied now e m d copy h in
        inl (
          copy,
          h,
          valid,
          rw deleted (find-gone e.message_id d),
          λ id apart. rw deleted (find-others e.message_id id d apart),
          λ forwarded found. (ground (arith, copied, found), ground (arith, copied, found)),
        )
  ]

  -- The copy that a server forwards has the signature of the event that it got, and another number
  -- of hops. A server deletes by the copy only if that one signature is right for the hash of the
  -- event and for the hash of the copy.
  pub handle_event-forwarded :
      (now later : ℕ) (e forwarded : DmDeleteGossipEvent) (m other : Map String ℕ) (d there : D)
      → (handled now e m d).0 ≡ applied (some forwarded)
      → ((handled later forwarded other there).2 ≡ there)
        ⊎ ((forwarded.hop_count ≡ e.hop_count + 1)
            × (world.verify e.signature (world.create_event_hash e) e.reporter_server_public_key
                ≡ ok true)
            × (world.verify e.signature
                  (world.create_event_hash forwarded)
                  e.reporter_server_public_key
                ≡ ok true))
  unfolding verify_event_signature
  handle_event-forwarded now later e forwarded m other d there h =
      let (valid, copied, _) = after-applied now e m d (some forwarded) h in
      let same : create_forwarded_event world ttl_seconds e ≡ forwarded = ground (arith, copied) in
      elim (handle_event-applied later forwarded other there) [
        | inr kept ↦ inl kept
        | inl (copy, _, valid', _, _, _) ↦ inr (
          sym (ap (λ (x : DmDeleteGossipEvent). x.hop_count) same),
          valid,
          subst
              (λ (x : DmDeleteGossipEvent).
                world.verify x.signature (world.create_event_hash forwarded)
                  x.reporter_server_public_key
                ≡ ok true)
              (sym same) valid',
        )
      ]

  -- A rejected event was new, and is in the cache.
  remembered :
      (now : ℕ) (e : DmDeleteGossipEvent) (m : Map String ℕ) (d : D)
      → (handled now e m d).0 ≡ rejected
      → lookup e.event_id (handled now e m d).1 ≡ some (now + ttl_seconds * 1000)
  unfolding handle_event should_process_event apply_event
  remembered now e m d h =
      let kept = cleanup_dedupe_cache world ttl_seconds now m in
      ground (arith, h, lookup-insert_self e.event_id (now + ttl_seconds * 1000) kept)

  cleaned :
      (now : ℕ) (id : String) (m : Map String ℕ)
      → has id (keep (λ (entry : String × ℕ). not (leb entry.1 now)) m) ≡ true
      → has id (cleanup_dedupe_cache world ttl_seconds now m) ≡ true
  unfolding cleanup_dedupe_cache
  cleaned now id m h = h

  -- An event that is rejected is remembered all the same: the true event of the same identifier is
  -- not applied afterwards.
  pub handle_event-poisoned :
      (now later : ℕ) (e true_event : DmDeleteGossipEvent) (m : Map String ℕ) (d : D)
      → (handled now e m d).0 ≡ rejected
      → true_event.event_id ≡ e.event_id
      → later < now + ttl_seconds * 1000
      → handled later true_event (handled now e m d).1 d
        ≡ (repeated, (handled later true_event (handled now e m d).1 d).1, d)
  unfolding handle_event
  handle_event-poisoned now later e true_event m d h same soon =
      let known = remembered now e m d h in
      let here =
        has-unexpired later e.event_id (now + ttl_seconds * 1000) (handled now e m d).1 known
          soon in
      let seen =
        ap (λ id. has id (cleanup_dedupe_cache world ttl_seconds later (handled now e m d).1)) same
        ∙ cleaned later e.event_id (handled now e m d).1 here in
      unfold should_process_event in ground (arith, seen)
