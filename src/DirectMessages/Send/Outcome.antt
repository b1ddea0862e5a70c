-- ===== src/DirectMessages/Send/Outcome.antt =====
-- What a message that is sent leaves in the queue, whether it is accepted or refused.
use open_chat_be.Prelude.{
  All, Bool, Bool-cases, List, Option-cases, String, [], arith, beq_refl, eq_of_beq, false, inl,
  inr, leb, length, nat_eq, none, refl, some, string_eq, subst, to_set, true, ℕ, ◌++◌, ◌==◌, ◌∷◌,
  ◌≡◌, ◌≢◌, ◌⊎◌,
}
use open_chat_be.Results.{Result-cases, ok, err, Exception, >>=-eq-ok, require-eq-ok, require}
use open_chat_be.Json.{Value}
use open_chat_be.DirectMessages.Types.{ChatMessageAcceptedPayload, DirectMessage}
use open_chat_be.DirectMessages.Signature.{
  parse_chat_message_send_payload, verify_direct_message_signature,
}
use open_chat_be.DirectMessages.Table.{
  MessageTable, DirectMessageConfig, MessageWorld, Effect, emit_to_user,
  map_chat_message_accepted_event, with_replicas, peers_json,
}
use open_chat_be.DirectMessages.Send.{
  CheckedSend, check_send, queued_row, quorum_request, extend_to_live, send_checked,
  handle_chat_message_send, require_x25519, require_date, live_delivery_peer_ids,
}

abbrev pub is_emit : Effect → Bool
is_emit (emit_to_user key event) = true
is_emit effect = false

module _ (world : MessageWorld) (config : DirectMessageConfig) where
  -- A message that passes the tests is signed by its sender.
  check_send-signed :
      (sender : String) (value : Value) (c : CheckedSend)
      → check_send world config sender value ≡ ok c
      → verify_direct_message_signature world.signatures sender c.payload ≡ ok true
  unfolding check_send
  check_send-signed sender value c h =
      let (p, _, h1) = >>=-eq-ok (parse_chat_message_send_payload world.signatures value) _ h in
      let (valid, verified, h2) =
        >>=-eq-ok (verify_direct_message_signature world.signatures sender p) _ h1 in
      let (_, is_valid, h3) = >>=-eq-ok (require valid _) _ h2 in
      let (_, _, h4) = >>=-eq-ok (require_x25519 (world.find_user sender) _) _ h3 in
      let (_, _, h5) = >>=-eq-ok (require_x25519 (world.find_user p.recipient_public_key) _) _ h4 in
      let (_, _, h6) =
        >>=-eq-ok
          (require
            (leb config.replica_remote_count (
              length
                (world.select_replica_peer_ids p.recipient_public_key config.replica_remote_count)))
            _)
          _ h5 in
      let (_, _, h7) = >>=-eq-ok (require_date world.signatures p.send_time) _ h6 in
      let holds : valid ≡ true = require-eq-ok valid _ is_valid in ground (arith, verified, holds)

  module _ {D : Type 0} (table : MessageTable D) where
    extend_to_live-row :
        (row : DirectMessage) (replicas live : List String) (d : D)
        → table.find_unique row.id d ≡ some row
        → (v : Value) × (table.find_unique row.id
              (extend_to_live world config table row replicas live d).0
            ≡ some (with_replicas v row))
    unfolding extend_to_live
    extend_to_live-row row replicas [] d h = (row.replica_peer_ids, h)
    extend_to_live-row row replicas (peer ∷ peers) d h =
        let v = peers_json (to_set (replicas ++ peer ∷ peers)) in
        (v, ground (arith, table.find-update_replicas row.id v row.id d, beq_refl row.id, h))

    extend_to_live-others :
        (row : DirectMessage) (replicas live : List String) (id : String) (d : D)
        → row.id ≢ id
        → table.find_unique id (extend_to_live world config table row replicas live d).0
          ≡ table.find_unique id d
    unfolding extend_to_live
    extend_to_live-others row replicas [] id d h = refl
    extend_to_live-others row replicas (peer ∷ peers) id d h = ground (
      arith,
      string_eq.beq_iff row.id id,
      table.find-update_replicas row.id (peers_json (to_set (replicas ++ peer ∷ peers))) id d,
    )

    abbrev pub IsStored : String → CheckedSend → ChatMessageAcceptedPayload → D → Type 0
    IsStored sender c a d =
        (row : DirectMessage) × (table.find_unique c.payload.id d ≡ some row)
        × (row.sender_public_key ≡ sender)
        × (row.recipient_public_key ≡ c.payload.recipient_public_key)
        × (row.message ≡ c.payload.message)
        × (a ≡ map_chat_message_accepted_event world config row)

    send_checked-accepted :
        (now : ℕ) (sender : String) (c : CheckedSend) (a : ChatMessageAcceptedPayload) (d : D)
        → (send_checked world config table now sender c d).0 ≡ ok a
        → ((world.replicate (
              quorum_request world config
                (queued_row world config now sender c)
                c.replica_peer_ids)).quorum_met
            ≡ true)
          × IsStored sender c a (send_checked world config table now sender c d).1
    unfolding send_checked queued_row map_chat_message_accepted_event
    send_checked-accepted now sender c a d h =
        let row = queued_row world config now sender c in
        let live =
          live_delivery_peer_ids world config row.recipient_public_key c.replica_peer_ids in
        let stored : table.find_unique row.id (table.upsert row d) ≡ some row =
          ground (arith, table.find-upsert row row.id d, beq_refl row.id) in
        let (v, found) =
          extend_to_live-row row c.replica_peer_ids live (table.upsert row d) stored in
        elim (Bool-cases
          (world.replicate (quorum_request world config row c.replica_peer_ids)).quorum_met) [
            | inl e ↦ (
              e,
              (
                with_replicas v row,
                ground (arith, e, found),
                refl,
                refl,
                refl,
                ground (arith, e, h),
              ),
            )
            | inr e ↦ absurd (ground (arith, e, h))
          ]

    handle-of_checked :
        (now : ℕ) (sender : String) (value : Value) (c : CheckedSend) (d : D)
        → check_send world config sender value ≡ ok c
        → handle_chat_message_send world config table now sender value d
          ≡ send_checked world config table now sender c d
    unfolding handle_chat_message_send
    handle-of_checked now sender value c d checked = cc checked

    handle-of_refused :
        (now : ℕ) (sender : String) (value : Value) (e : Exception) (d : D)
        → check_send world config sender value ≡ err e
        → handle_chat_message_send world config table now sender value d ≡ (err e, d, [])
    unfolding handle_chat_message_send
    handle-of_refused now sender value e d refused = cc refused

    send_checked-refused :
        (now : ℕ) (sender : String) (c : CheckedSend) (e : Exception) (d : D)
        → (send_checked world config table now sender c d).0 ≡ err e
        → All (λ effect. is_emit effect ≡ false) (send_checked world config table now sender c d).2
          × (table.find_unique c.payload.id (send_checked world config table now sender c d).1
              ≡ none)
    unfolding send_checked queued_row
    send_checked-refused now sender c e d h =
        let row = queued_row world config now sender c in
        let stored : table.find_unique row.id (table.upsert row d) ≡ some row =
          ground (arith, table.find-upsert row row.id d, beq_refl row.id) in
        let gone =
          table.find-delete_many-some (λ r. r.id == row.id) row.id row (table.upsert row d)
            stored in
        elim (Bool-cases
          (world.replicate (quorum_request world config row c.replica_peer_ids)).quorum_met) [
            | inl q ↦ absurd (ground (arith, q, h))
            | inr q ↦ (ground (arith, q), ground (arith, q, gone, beq_refl row.id))
          ]

    -- If a message is accepted, then its sender signed it, enough servers keep a copy, the queue has
    -- it with its sender, its recipient and its text, and the confirmation describes that row.
    pub handle_chat_message_send-accepted :
        (now : ℕ) (sender : String) (value : Value) (a : ChatMessageAcceptedPayload) (d : D)
        → (handle_chat_message_send world config table now sender value d).0 ≡ ok a
        → (c : CheckedSend) × (check_send world config sender value ≡ ok c)
          × (verify_direct_message_signature world.signatures sender c.payload ≡ ok true)
          × ((world.replicate (
                quorum_request world config
                  (queued_row world config now sender c)
                  c.replica_peer_ids)).quorum_met
              ≡ true)
          × IsStored sender c a (handle_chat_message_send world config table now sender value d).1
    handle_chat_message_send-accepted now sender value a d h =
        elim (Result-cases (check_send world config sender value)) [
          | inl (c, checked) ↦
              let done = rw (handle-of_checked now sender value c d checked) at h in
              rw (handle-of_checked now sender value c d checked) (
                let r = send_checked-accepted now sender c a d done in
                (c, checked, check_send-signed sender value c checked, r.0, r.1))
          | inr (e, refused) ↦ absurd (cc (handle-of_refused now sender value e d refused, h))
        ]

    delete_many-others :
        (row : DirectMessage) (id : String) (d : D)
        → row.id ≢ id
        → table.find_unique id (table.delete_many (λ r. r.id == row.id) d) ≡ table.find_unique id d
    delete_many-others row id d other = elim (Option-cases (table.find_unique id d)) [
      | inl e ↦ cc (e, table.find-delete_many-none (λ r. r.id == row.id) id d e)
      | inr (r, e) ↦ ground (
        arith,
        e,
        table.find-delete_many-some (λ r. r.id == row.id) id r d e,
        string_eq.beq_iff r.id row.id,
        table.find-id id r d e,
      )
    ]

    send_checked-others :
        (now : ℕ) (sender : String) (c : CheckedSend) (id : String) (d : D)
        → c.payload.id ≢ id
        → table.find_unique id (send_checked world config table now sender c d).1
          ≡ table.find_unique id d
    unfolding send_checked queued_row
    send_checked-others now sender c id d other =
        let row = queued_row world config now sender c in
        let live =
          live_delivery_peer_ids world config row.recipient_public_key c.replica_peer_ids in
        let stored = table.find-upsert row id d in
        let gone = delete_many-others row id (table.upsert row d) other in
        let extended =
          extend_to_live-others row c.replica_peer_ids live id (table.upsert row d) other in
        elim (Bool-cases
          (world.replicate (quorum_request world config row c.replica_peer_ids)).quorum_met) [
            | inl q ↦ ground (arith, q, stored, extended, string_eq.beq_iff row.id id)
            | inr q ↦ ground (arith, q, stored, gone, string_eq.beq_iff row.id id)
          ]

    -- A message never changes the row of another message, whether it is accepted or refused.
    pub handle_chat_message_send-others :
        (now : ℕ) (sender : String) (value : Value) (c : CheckedSend) (id : String) (d : D)
        → check_send world config sender value ≡ ok c
        → c.payload.id ≢ id
        → table.find_unique id (handle_chat_message_send world config table now sender value d).1
          ≡ table.find_unique id d
    handle_chat_message_send-others now sender value c id d checked other =
        rw (handle-of_checked now sender value c d checked)
          (send_checked-others now sender c id d other)

    -- If a message is refused, then nobody is sent an event about it, and every row of the queue is
    -- as it was, but for the row under the identifier of the message, which may be gone if the
    -- message passed all tests.
    pub handle_chat_message_send-refused :
        (now : ℕ) (sender : String) (value : Value) (e : Exception) (d : D)
        → (handle_chat_message_send world config table now sender value d).0 ≡ err e
        → let (_, d', effects) = handle_chat_message_send world config table now sender value d in
          All (λ effect. is_emit effect ≡ false) effects
          × ((id : String)
              → (table.find_unique id d' ≡ table.find_unique id d)
                ⊎ ((c : CheckedSend) × (check_send world config sender value ≡ ok c)
                    × (c.payload.id ≡ id)
                    × (table.find_unique id d' ≡ none)))
    handle_chat_message_send-refused now sender value e d h =
        elim (Result-cases (check_send world config sender value)) [
          | inl (c, checked) ↦
              let done = rw (handle-of_checked now sender value c d checked) at h in
              rw (handle-of_checked now sender value c d checked) (
                let (silent, gone) = send_checked-refused now sender c e d done in
                (
                  silent,
                  λ id. elim (Bool-cases (c.payload.id == id)) [
                    | inl same ↦
                        let equal = eq_of_beq c.payload.id id same in
                        inr (
                          c,
                          checked,
                          equal,
                          subst
                              (λ x.
                                table.find_unique x
                                  (send_checked world config table now sender c d).1
                                ≡ none)
                              equal gone,
                        )
                    | inr differ ↦ inl (
                        send_checked-others now sender c id d
                          (ground (arith, differ, string_eq.beq_iff c.payload.id id)))
                  ],
                ))
          | inr (x, refused) ↦
              rw (handle-of_refused now sender value x d refused) (tt, λ id. inl refl)
        ]
