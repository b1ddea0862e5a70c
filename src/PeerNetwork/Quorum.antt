-- ===== src/PeerNetwork/Quorum.antt =====
-- `replicate_direct_message_to_peers` of src/modules/peer_network/peer_network.service.ts. The
-- answer of a server is a parameter: nothing if the request failed, else whether it has stored the
-- message.
use open_chat_be.Prelude.{
  Bool, Bool-cases, List, NoDup, NoDup-keep, NoDup-to_set, Option, String, [], ap, arith, contains,
  contains-keep, contains-to_set, false, if◌then◌else◌, inl, inr, keep, leb, length, max, min,
  nat_eq, not, or_else, string_eq, sym, to_set, true, ℕ, ◌&&◌, ◌++◌, ◌==◌, ◌||◌, ◌∙◌, ◌∷◌, ◌≡◌, ◌≤◌,
}
use mathlib.Core.List.{append_assoc, append-nil}
use open_chat_be.Text.{is_empty}
use open_chat_be.DirectMessages.Types.{
  InterServerDmReplicatePayload, ReplicateToPeersInput, ReplicateToPeersResult,
}

module _ (local_peer_id : String) (replica_remote_quorum : ℕ)
    (answer : String → InterServerDmReplicatePayload → Option Bool) where
  abbrev pub is_remote : String → Bool
  is_remote peer_id =
      not (is_empty peer_id) && not (peer_id == "unknown_peer") && not (peer_id == local_peer_id)

  abbrev pub remote_peer_ids : ReplicateToPeersInput → List String
  remote_peer_ids input = to_set (keep is_remote input.peer_ids)

  abbrev pub sent_payload : ReplicateToPeersInput → InterServerDmReplicatePayload
  sent_payload input = record input.payload {
    replica_peer_ids = to_set input.payload.replica_peer_ids;
  }

  -- `response?.stored`
  abbrev pub has_stored : ReplicateToPeersInput → String → Bool
  has_stored input peer_id = or_else (answer peer_id (sent_payload input)) false

  -- The loop over the peers, with the two lists that it fills.
  unfoldable pub ask_peers :
      ReplicateToPeersInput → List String → List String × List String → List String × List String
  ask_peers input [] (acknowledged, failed) = (acknowledged, failed)
  ask_peers input (peer_id ∷ rest) (acknowledged, failed) = ask_peers input rest (
      if has_stored input peer_id
      then (acknowledged ++ peer_id ∷ [], failed)
      else (acknowledged, failed ++ peer_id ∷ []))

  abbrev pub quorum_target : ReplicateToPeersInput → ℕ
  quorum_target input = min replica_remote_quorum (max 1 (length (remote_peer_ids input)))

  unfoldable pub replicate_direct_message_to_peers : ReplicateToPeersInput → ReplicateToPeersResult
  unfolding ask_peers
  replicate_direct_message_to_peers input =
      let (acknowledged, failed) = ask_peers input (remote_peer_ids input) ([], []) in
      record {
        acknowledged_peer_ids = acknowledged;
        failed_peer_ids = failed;
        quorum_met = not input.require_quorum || leb (quorum_target input) (length acknowledged);
      }

  ask_peers-acknowledged :
      (input : ReplicateToPeersInput) (peers acknowledged failed : List String)
      → (ask_peers input peers (acknowledged, failed)).0
        ≡ acknowledged ++ keep (has_stored input) peers
  unfolding ask_peers
  ask_peers-acknowledged input [] acknowledged failed = sym (append-nil acknowledged)
  ask_peers-acknowledged input (p ∷ ps) acknowledged failed =
      elim (Bool-cases (has_stored input p)) [
        | inl stored ↦
            let rest =
              ask_peers-acknowledged input ps (acknowledged ++ p ∷ []) failed
              ∙ append_assoc acknowledged (p ∷ []) (keep (has_stored input) ps) in
            ground (arith, stored, rest)
        | inr refused ↦
            ground (arith, refused, ask_peers-acknowledged input ps acknowledged (failed ++ p ∷ []))
      ]

  -- If a quorum is required and reported, then as many different servers as it asks for, other than
  -- this one, and at least one, have said that they stored the message.
  pub replicate_direct_message_to_peers-quorum :
      (input : ReplicateToPeersInput)
      → 1 ≤ replica_remote_quorum
      → input.require_quorum ≡ true
      → (replicate_direct_message_to_peers input).quorum_met ≡ true
      → let acknowledged = (replicate_direct_message_to_peers input).acknowledged_peer_ids in
        NoDup acknowledged
        × (1 ≤ length acknowledged)
        × (min replica_remote_quorum (length (remote_peer_ids input)) ≤ length acknowledged)
        × ((peer_id : String)
            → contains acknowledged peer_id
              ≡ (is_remote peer_id && contains input.peer_ids peer_id && has_stored input peer_id))
  unfolding replicate_direct_message_to_peers
  replicate_direct_message_to_peers-quorum input positive required met =
      let peers = remote_peer_ids input in
      let stored = keep (has_stored input) peers in
      let acknowledged : (ask_peers input peers ([], [])).0 ≡ stored =
        ask_peers-acknowledged input peers [] [] in
      let enough : leb (quorum_target input) (length stored) ≡ true =
        ground (arith, required, met, ap (λ ids. length ids) acknowledged) in
      rw acknowledged (
        NoDup-keep (has_stored input) peers (NoDup-to_set (keep is_remote input.peer_ids)),
        ground (arith, enough),
        ground (arith, enough),
        λ peer_id. ground (
          arith,
          contains-keep (has_stored input) peers peer_id,
          contains-to_set (keep is_remote input.peer_ids) peer_id,
          contains-keep is_remote input.peer_ids peer_id,
        ),
      )
