-- ===== src/DirectMessages/Remote/Authority.antt =====
-- What another server can change in the queue of this one.
use open_chat_be.Prelude.{
  Bool-cases, Option-cases, String, arith, beq_refl, contains, eq_of_beq, false, inl, inr, length,
  ltb, nat_eq, none, not, some, string_eq, true, ℕ, ◌&&◌, ◌==◌, ◌≡◌, ◌≢◌, ◌⊎◌,
}
use open_chat_be.Results.{ok, Result-cases}
use open_chat_be.DirectMessages.Types.{
  DirectMessage, InterServerDmReplicatePayload, InterServerDmDeleteRequestPayload,
}
use open_chat_be.DirectMessages.Signature.{verify_direct_message_signature}
use open_chat_be.DirectMessages.Send.{require_date}
use open_chat_be.DirectMessages.Queue.{signed_part}
use open_chat_be.DirectMessages.Table.{MessageTable, DirectMessageConfig, MessageWorld}
use open_chat_be.DirectMessages.Remote.{
  replica_row, handle_inter_server_replicate_request, authorized_peer_ids, delete_authorized,
  handle_inter_server_delete_request,
}

abbrev pub IsAuthorized : DirectMessage → String → Type 0
IsAuthorized row peer_id =
    (length (authorized_peer_ids row) ≡ 0) ⊎ (contains (authorized_peer_ids row) peer_id ≡ true)

module _ (world : MessageWorld) (config : DirectMessageConfig) {D : Type 0}
    (table : MessageTable D) where
  -- For a message that is in the queue, the answer to a server that asks to delete it is yes if and
  -- only if the server is its origin or one of its replicas, or none is recorded, and the recipient
  -- is the one named. After a yes the message is gone, and after a no the queue is as it was.
  pub handle_inter_server_delete_request-authority :
      (p : InterServerDmDeleteRequestPayload) (peer : String) (row : DirectMessage) (d : D)
      → table.find_unique p.message_id d ≡ some row
      → let (ack, d') = handle_inter_server_delete_request world config table p peer d in
        ((ack.deleted ≡ true)
          × (table.find_unique p.message_id d' ≡ none)
          × IsAuthorized row peer
          × (row.recipient_public_key ≡ p.recipient_public_key))
        ⊎ ((ack.deleted ≡ false)
            × (d' ≡ d)
            × ¬ (IsAuthorized row peer × (row.recipient_public_key ≡ p.recipient_public_key)))
  unfolding handle_inter_server_delete_request delete_authorized
  handle_inter_server_delete_request-authority p peer row d found =
      let peers = authorized_peer_ids row in
      elim (Bool-cases (ltb 0 (length peers) && not (contains peers peer))) [
        | inl barred ↦
            inr (cc (found, barred), cc (found, barred), λ h. ground (arith, barred, h.0))
        | inr allowed ↦ elim (Bool-cases (row.recipient_public_key == p.recipient_public_key)) [
          | inl same ↦ inl (
            cc (found, allowed, same),
            ground (
              arith,
              found,
              allowed,
              same,
              table.find-delete p.message_id p.message_id d,
              beq_refl p.message_id,
            ),
            elim (Bool-cases (contains peers peer)) [
              | inl listed ↦ inr listed
              | inr absent ↦ inl (ground (arith, allowed, absent))
            ],
            eq_of_beq row.recipient_public_key p.recipient_public_key same,
          )
          | inr differ ↦ inr (
            cc (found, allowed, differ),
            cc (found, allowed, differ),
            λ h. ground (
              arith,
              differ,
              h.1,
              string_eq.beq_iff row.recipient_public_key p.recipient_public_key,
            ),
          )
        ]
      ]

  -- A server that asks to delete a message changes no other message.
  pub handle_inter_server_delete_request-others :
      (p : InterServerDmDeleteRequestPayload) (peer id : String) (d : D)
      → p.message_id ≢ id
      → table.find_unique id (handle_inter_server_delete_request world config table p peer d).1
        ≡ table.find_unique id d
  unfolding handle_inter_server_delete_request delete_authorized
  handle_inter_server_delete_request-others p peer id d other =
      elim (Option-cases (table.find_unique p.message_id d)) [
        | inl e ↦ cc e
        | inr (row, e) ↦
            ground
              (arith, e, table.find-delete p.message_id id d, string_eq.beq_iff p.message_id id)
      ]

  -- A server that hands in a message changes a row only if the message is signed by the sender that
  -- it names; the row is then the one under the identifier of the message, with its content.
  pub handle_inter_server_replicate_request-signed :
      (now : ℕ) (p : InterServerDmReplicatePayload) (peer id : String) (d : D)
      → let d' = (handle_inter_server_replicate_request world config table now p peer d).1 in
        (table.find_unique id d' ≡ table.find_unique id d)
        ⊎ ((send_time : ℕ) × (p.id ≡ id)
            × (verify_direct_message_signature world.signatures p.sender_public_key (signed_part p)
                ≡ ok true)
            × (table.find_unique id d'
                ≡ some (replica_row world config table now send_time peer p)))
  unfolding handle_inter_server_replicate_request
  handle_inter_server_replicate_request-signed now p peer id d =
      elim (Result-cases
        (verify_direct_message_signature world.signatures p.sender_public_key (signed_part p))) [
          | inr (e, bad) ↦ inl (cc bad)
          | inl (false, checked) ↦ inl (cc checked)
          | inl (true, checked) ↦ elim (Result-cases (require_date world.signatures p.send_time)) [
            | inr (e, bad) ↦ inl (cc (checked, bad))
            | inl (send_time, dated) ↦ elim (Bool-cases (p.id == id)) [
              | inl same ↦
                  let row = replica_row world config table now send_time peer p in
                  inr (
                    send_time,
                    eq_of_beq p.id id same,
                    checked,
                    unfold replica_row in
                        ground (arith, checked, dated, same, table.find-upsert row id d),
                  )
              | inr differ ↦
                  let row = replica_row world config table now send_time peer p in
                  inl (
                    unfold replica_row in
                    ground (arith, checked, dated, differ, table.find-upsert row id d))
            ]
          ]
        ]
