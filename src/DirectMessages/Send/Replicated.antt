-- ===== src/DirectMessages/Send/Replicated.antt =====
-- Sending a message, with the peer network as it is: on how many servers an accepted message lies.
use open_chat_be.Prelude.{
  Bool, NoDup, Option, String, arith, contains, length, min, nat_eq, refl, string_eq, true, ℕ, ◌≡◌,
  ◌≢◌, ◌≤◌,
}
use open_chat_be.Results.{ok}
use open_chat_be.Json.{Value}
use open_chat_be.DirectMessages.Types.{ChatMessageAcceptedPayload, InterServerDmReplicatePayload}
use open_chat_be.DirectMessages.Table.{MessageTable, DirectMessageConfig, MessageWorld}
use open_chat_be.DirectMessages.Send.{
  CheckedSend, check_send, queued_row, quorum_request, handle_chat_message_send,
}
use open_chat_be.DirectMessages.Send.Outcome.{handle_chat_message_send-accepted}
use open_chat_be.PeerNetwork.Quorum.{
  replicate_direct_message_to_peers, replicate_direct_message_to_peers-quorum, remote_peer_ids,
  has_stored,
}

module _ (world : MessageWorld) (quorum : ℕ)
    (answer : String → InterServerDmReplicatePayload → Option Bool) where
  -- The world in which messages are replicated by the peer network of this program.
  abbrev pub connected : MessageWorld
  connected = record world {
    replicate = replicate_direct_message_to_peers world.local_peer_id quorum answer;
  }

  -- If a message is accepted, then different servers other than this one, of those that were asked, as
  -- many as the quorum or as there are replicas, and at least one, have said that they stored the
  -- message as it lies in the queue.
  pub handle_chat_message_send-replicated :
      (config : DirectMessageConfig) {D : Type 0} (table : MessageTable D) (now : ℕ)
      (sender : String) (value : Value) (a : ChatMessageAcceptedPayload) (d : D)
      → 1 ≤ quorum
      → (handle_chat_message_send connected config table now sender value d).0 ≡ ok a
      → (c : CheckedSend) × (check_send connected config sender value ≡ ok c)
        × (let request =
              quorum_request connected config
                (queued_row connected config now sender c)
                c.replica_peer_ids in
            let stored =
              (replicate_direct_message_to_peers world.local_peer_id quorum answer
                request).acknowledged_peer_ids in
            NoDup stored
            × (1 ≤ length stored)
            × (min quorum (length (remote_peer_ids world.local_peer_id quorum answer request))
                ≤ length stored)
            × ((peer_id : String)
                → contains stored peer_id ≡ true
                → (peer_id ≢ world.local_peer_id)
                  × (contains request.peer_ids peer_id ≡ true)
                  × (has_stored world.local_peer_id quorum answer request peer_id ≡ true)))
  unfolding quorum_request
  handle_chat_message_send-replicated config table now sender value a d positive accepted =
      let (c, checked, _, met, _) =
        handle_chat_message_send-accepted connected config table now sender value a d accepted in
      let request =
        quorum_request connected config (queued_row connected config now sender c)
          c.replica_peer_ids in
      let (distinct, some_stored, enough, exact) =
        replicate_direct_message_to_peers-quorum world.local_peer_id quorum answer request positive
          refl met in
      (
        c,
        checked,
        (
          distinct,
          some_stored,
          enough,
          λ peer_id h. (
            ground (arith, exact peer_id, h, string_eq.beq_iff peer_id world.local_peer_id),
            ground (arith, exact peer_id, h),
            ground (arith, exact peer_id, h),
          ),
        ),
      )
