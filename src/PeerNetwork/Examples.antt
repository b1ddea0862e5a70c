-- ===== src/PeerNetwork/Examples.antt =====
-- Runs of the peer network.
pub mod Reports
use open_chat_be.Prelude.{
  Bool, List, String, [], arith, false, has, nat_eq, none, refl, some, string_eq, true, ℕ, ◌∷◌, ◌≡◌,
}
use open_chat_be.DirectMessages.Types.{InterServerDmDeleteRequestPayload}
use open_chat_be.PeerNetwork.Replicas.{
  is_candidate, select_replica_peer_ids_for_user, select_replica_peer_ids_for_user-take,
}
use open_chat_be.PeerNetwork.Retries.{
  DeleteRetryItem, DeleteRetryConfig, rounds, due_at, rounds-exhausted,
}
use open_chat_be.PeerNetwork.Seen.{
  should_process_inter_server_dm_event, should_process_inter_server_dm_event-once,
}
use open_chat_be.PeerNetwork.Scores.{Observations}

abbrev closest : String → ℕ → List String
closest key count = "p1" ∷ "p2" ∷ "unknown_peer" ∷ "p2" ∷ "p3" ∷ "p4" ∷ []

should_process_inter_server_dm_event-once_example :
    (should_process_inter_server_dm_event 60 30000 "e1" "dm.delete"
      (should_process_inter_server_dm_event 60 10 "e1" "dm.delete" (("dm.pull:e1", 5) ∷ [])).1).0
    ≡ false
unfolding open_chat_be.PeerNetwork.Seen.cleanup_inter_server_dm_event_dedupe
    open_chat_be.Prelude.has should_process_inter_server_dm_event
should_process_inter_server_dm_event-once_example =
    should_process_inter_server_dm_event-once 60 10 30000 "e1" "dm.delete" (("dm.pull:e1", 5) ∷ [])
      refl (omega arith)

abbrev config : DeleteRetryConfig
config = record { delete_max_retries = 3; delete_retry_interval_ms = 10000 }

abbrev item : DeleteRetryItem
item = record {
  attempts = 0;
  next_attempt_at_ms = 10000;
  payload = record {
    message_id = "m1";
    origin_server_peer_id = "p2";
    recipient_public_key = "0xbb";
    replica_peer_ids = [];
  };
  peer_id = "p2";
}

-- No server answers.
abbrev silent : String → InterServerDmDeleteRequestPayload → Bool
silent peer_id payload = false

rounds-exhausted_example :
    (rounds config silent 1 10000 (some item)
      ≡ some (record item { attempts = 1; next_attempt_at_ms = due_at config silent 1 10000 }))
    × (rounds config silent 3 10000 (some item) ≡ none)
rounds-exhausted_example =
    rounds-exhausted config silent 2 1 10000 item refl refl refl (omega arith)

abbrev observations : Observations
observations =
    (
      "p2",
      record {
        connect_count = 1;
        dial_attempt_count = 2;
        dial_failure_count = 1;
        disconnect_count = 0;
        is_currently_connected = true;
        last_event_at_ms = 5;
        last_successful_connect_at_ms = some 5;
      },
    )
    ∷ []
