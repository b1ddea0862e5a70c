-- ===== src/DirectMessages/Queue/Pulled.antt =====
-- What the replicas can put into the queue when a user connects.
use open_chat_be.Prelude.{
  Bool-cases, List, Option, String, [], ap, arith, eq_of_beq, false, inl, inr, nat_eq, refl, some,
  string_eq, subst, sym, true, ℕ, ◌==◌, ◌∙◌, ◌∷◌, ◌≡◌, ◌⊎◌,
}
use mathlib.Core.List.{Memᴰ}
use open_chat_be.Results.{ok, err, Exception, Result-cases}
use open_chat_be.DirectMessages.Types.{DirectMessage, InterServerDmReplicatePayload}
use open_chat_be.DirectMessages.Signature.{verify_direct_message_signature}
use open_chat_be.DirectMessages.Send.{require_date}
use open_chat_be.DirectMessages.Table.{
  announce_presence, MessageTable, DirectMessageConfig, MessageWorld,
}
use open_chat_be.DirectMessages.Queue.{
  signed_part, pulled_row, store_pulled_message, store_pulled_messages, synchronize_from,
  synchronize_user_queue_from_replicas, handle_chat_sync,
}

module _ (world : MessageWorld) (config : DirectMessageConfig) {D : Type 0}
    (table : MessageTable D) where
  -- The row is the one for a message with that identifier that its sender signed.
  abbrev pub IsFromSigned :
      ℕ → InterServerDmReplicatePayload → String → Option DirectMessage → Type 0
  IsFromSigned now p id found =
      (send_time : ℕ) × (p.id ≡ id)
      × (verify_direct_message_signature world.signatures p.sender_public_key (signed_part p)
          ≡ ok true)
      × (found ≡ some (pulled_row world config table now send_time p))

  abbrev pub IsFromOneOf :
      ℕ → List InterServerDmReplicatePayload → String → Option DirectMessage → Type 0
  IsFromOneOf now [] id found = ⊥
  IsFromOneOf now (p ∷ ps) id found = IsFromSigned now p id found ⊎ IsFromOneOf now ps id found

  store_pulled_message-signed :
      (now : ℕ) (p : InterServerDmReplicatePayload) (id : String) (d : D)
      → let d' = (store_pulled_message world config table now p d).1 in
        (table.find_unique id d' ≡ table.find_unique id d)
        ⊎ IsFromSigned now p id (table.find_unique id d')
  unfolding store_pulled_message
  store_pulled_message-signed now p id d =
      elim (Result-cases
        (verify_direct_message_signature world.signatures p.sender_public_key (signed_part p))) [
          | inr (e, bad) ↦ inl (cc bad)
          | inl (false, checked) ↦ inl (cc checked)
          | inl (true, checked) ↦ elim (Result-cases (require_date world.signatures p.send_time)) [
            | inr (e, bad) ↦ inl (cc (checked, bad))
            | inl (send_time, dated) ↦
                let row = pulled_row world config table now send_time p in
                elim (Bool-cases (p.id == id)) [
                  | inl same ↦ inr (
                    send_time,
                    eq_of_beq p.id id same,
                    checked,
                    unfold pulled_row in
                        ground (arith, checked, dated, same, table.find-upsert row id d),
                  )
                  | inr differ ↦ inl (
                      unfold pulled_row in
                      ground (arith, checked, dated, differ, table.find-upsert row id d))
                ]
          ]
        ]

  store_pulled_messages-of_ok :
      (now : ℕ) (p : InterServerDmReplicatePayload) (ps : List InterServerDmReplicatePayload)
      (u : Unit {0}) (d : D)
      → (store_pulled_message world config table now p d).0 ≡ ok u
      → store_pulled_messages world config table now (p ∷ ps) d
        ≡ store_pulled_messages world config table now ps
            (store_pulled_message world config table now p d).1
  unfolding store_pulled_messages
  store_pulled_messages-of_ok now p ps u d h = cc h

  store_pulled_messages-of_err :
      (now : ℕ) (p : InterServerDmReplicatePayload) (ps : List InterServerDmReplicatePayload)
      (e : Exception) (d : D)
      → (store_pulled_message world config table now p d).0 ≡ err e
      → store_pulled_messages world config table now (p ∷ ps) d
        ≡ (err e, (store_pulled_message world config table now p d).1)
  unfolding store_pulled_messages
  store_pulled_messages-of_err now p ps e d h = cc h

  then_rest :
      (now : ℕ) (p : InterServerDmReplicatePayload) (ps : List InterServerDmReplicatePayload)
      (id : String) (before between after : Option DirectMessage)
      → (between ≡ before) ⊎ IsFromSigned now p id between
      → (after ≡ between) ⊎ IsFromOneOf now ps id after
      → (after ≡ before) ⊎ IsFromOneOf now (p ∷ ps) id after
  then_rest now p ps id before between after (inl e) (inl f) = inl (f ∙ e)
  then_rest now p ps id before between after (inr (t, a, b, c)) (inl f) = inr (inl (t, a, b, f ∙ c))
  then_rest now p ps id before between after first (inr r) = inr (inr r)

  -- After the loop a row is as it was, or it is one that a pulled message with the signature of its
  -- sender gave, whether the loop came to the end or not.
  pub store_pulled_messages-signed :
      (now : ℕ) (ps : List InterServerDmReplicatePayload) (id : String) (d : D)
      → let d' = (store_pulled_messages world config table now ps d).1 in
        (table.find_unique id d' ≡ table.find_unique id d)
        ⊎ IsFromOneOf now ps id (table.find_unique id d')
  store_pulled_messages-signed now [] id d = unfold store_pulled_messages in inl refl
  store_pulled_messages-signed now (p ∷ ps) id d =
      let d1 = (store_pulled_message world config table now p d).1 in
      let first = store_pulled_message-signed now p id d in
      let rest = store_pulled_messages-signed now ps id d1 in
      elim (Result-cases (store_pulled_message world config table now p d).0) [
        | inl (u, done) ↦
            rw (store_pulled_messages-of_ok now p ps u d done) (
              then_rest now p ps id (table.find_unique id d) (table.find_unique id d1) _ first rest)
        | inr (e, failed) ↦
            rw (store_pulled_messages-of_err now p ps e d failed)
              (elim first [ inl same ↦ inl same | inr new ↦ inr (inl new) ])
      ]

  store_pulled_message-malformed :
      (now : ℕ) (p : InterServerDmReplicatePayload) (e : Exception) (d : D)
      → verify_direct_message_signature world.signatures p.sender_public_key (signed_part p) ≡ err e
      → (store_pulled_message world config table now p d).0 ≡ err e
  unfolding store_pulled_message
  store_pulled_message-malformed now p e d malformed = cc malformed

  -- The loop over the pulled messages does not come to its end if one of them is malformed.
  store_pulled_messages-malformed :
      (now : ℕ) (p : InterServerDmReplicatePayload) (ps : List InterServerDmReplicatePayload)
      (e : Exception) (d : D)
      → Memᴰ p ps
      → verify_direct_message_signature world.signatures p.sender_public_key (signed_part p) ≡ err e
      → (thrown : Exception) × ((store_pulled_messages world config table now ps d).0 ≡ err thrown)
  store_pulled_messages-malformed now p [] e d there malformed = elim there [ ]
  store_pulled_messages-malformed now p (q ∷ qs) e d (Memᴰ.head same) malformed =
      let first = store_pulled_message-malformed now q e d (
        subst
          (λ (x : InterServerDmReplicatePayload).
            verify_direct_message_signature world.signatures x.sender_public_key (signed_part x)
            ≡ err e)
          same malformed) in
      (e, ap (λ r. r.0) (store_pulled_messages-of_err now q qs e d first))
  store_pulled_messages-malformed now p (q ∷ qs) e d (Memᴰ.tail there) malformed =
      elim (Result-cases (store_pulled_message world config table now q d).0) [
        | inr (thrown, failed) ↦
            (thrown, ap (λ r. r.0) (store_pulled_messages-of_err now q qs thrown d failed))
        | inl (u, done) ↦
            let (thrown, failed) =
              store_pulled_messages-malformed now p qs e
                (store_pulled_message world config table now q d).1 there malformed in
            (thrown, ap (λ r. r.0) (store_pulled_messages-of_ok now q qs u d done) ∙ failed)
      ]

  -- If any message that the replicas hand out cannot be examined, since its identifier, its text, its
  -- date or its signature is malformed, then the request of a user for its messages fails, whatever
  -- comes before it and after it: no message of the queue is sent to the user, and the rows that have
  -- changed come of messages with the signature of their sender.
  pub handle_chat_sync-blocked :
      (now : ℕ) (user peer : String) (peers : List String) (p : InterServerDmReplicatePayload)
      (e : Exception) (d : D)
      → world.select_replica_peer_ids user config.replica_remote_count ≡ peer ∷ peers
      → Memᴰ p (world.pull_pending user (peer ∷ peers))
      → verify_direct_message_signature world.signatures p.sender_public_key (signed_part p) ≡ err e
      → let (result, d', effects) = handle_chat_sync world config table now user d in
        ((thrown : Exception) × (result ≡ err thrown))
        × (effects ≡ announce_presence user (peer ∷ peers) ∷ [])
        × ((id : String)
            → (table.find_unique id d' ≡ table.find_unique id d)
              ⊎ IsFromOneOf now
                  (world.pull_pending user (peer ∷ peers))
                  id
                  (table.find_unique id d'))
  unfolding handle_chat_sync synchronize_user_queue_from_replicas synchronize_from
  handle_chat_sync-blocked now user peer peers p e d selected there malformed =
      let ps = world.pull_pending user (peer ∷ peers) in
      let (thrown, failed) = store_pulled_messages-malformed now p ps e d there malformed in
      let same : (handle_chat_sync world config table now user d).1
          ≡ (store_pulled_messages world config table now ps d).1 =
        cc (selected, failed) in
      (
        (thrown, cc (selected, failed)),
        cc (selected, failed),
        λ id.
            subst
              (λ d'.
                (table.find_unique id d' ≡ table.find_unique id d)
                ⊎ IsFromOneOf now ps id (table.find_unique id d'))
              (sym same) (store_pulled_messages-signed now ps id d),
      )
