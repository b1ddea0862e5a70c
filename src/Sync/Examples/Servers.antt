-- ===== src/Sync/Examples/Servers.antt =====
-- Servers that vote, runs that follow one another, and deletions that are passed on.
use open_chat_be.Prelude.{
  All, IsSortedBy, List, Option, String, [], add, add_all, arith, contains, false, has,
  if◌then◌else◌, insert, length, lookup, map, max, nat_beq, nat_eq, none, place, refl, some, sort,
  string_eq, to_set, true, ℕ, ◌+◌, ◌==◌, ◌∷◌, ◌≡◌, ◌≢◌, ◌≤◌, ◌⊎◌,
}
use open_chat_be.Results.{ok}
use open_chat_be.Json.{null}
use open_chat_be.Sync.Tables.{
  ServerNode, ServerScoreAggregate, node_row, aggregate_row, extract_primary_key,
}
use open_chat_be.Sync.Database.{Queries, IsAscending}
use open_chat_be.DirectMessages.Examples.{table}
use open_chat_be.Sync.Validators.{SyncValidator, discover_validators, validator_before}
use open_chat_be.Sync.Validators.Bounds.{IsEligible, discover_validators-IsEligible}
use open_chat_be.Sync.Startup.Runs.{
  RunState, run_sync, execution_ended, no_run, calls, idle, later, requested, run_sync-followed,
}
use open_chat_be.Sync.Gossip.{
  DmDeleteGossipEvent, GossipWorld, GossipOutcome, rejected, repeated, applied, handle_event,
  create_forwarded_event, verify_event_signature,
}
use open_chat_be.Sync.Gossip.Forwarded.{
  handle_event-applied, handle_event-forwarded, handle_event-poisoned,
}
use open_chat_be.Sync.Examples.Memory.{by_length, queries, table_in, Store}
use open_chat_be.Sync.Examples.Copies.{here_tables}

abbrev server : String → ServerNode
server key = record {
  created_at = 1;
  is_active = true;
  last_announce_at = none;
  last_seen_at = 1;
  listen_addresses = null;
  peer_id = key;
  server_public_key = none;
  updated_at = 1;
}

abbrev servers : List ServerNode
servers = server "p" ∷ server "p1" ∷ server "p10" ∷ []

servers-IsAscending : IsAscending by_length (λ r. extract_primary_key (node_row r)) servers
unfolding open_chat_be.Text.count_chars
servers-IsAscending = ((refl, (refl, tt)), ((refl, tt), (tt, tt)))

-- The mean score of the second server is 80.6.
abbrev score : ServerScoreAggregate
score = record {
  last_report_at = 1;
  mean_score = record { numerator = 403; denominator = 5 };
  report_count = 5;
  target_peer_id = "p1";
  updated_at = 1;
}

-- The database with these servers and this score.
abbrev with_servers : Queries by_length Store
with_servers = record queries {
  server_nodes =
      table_in node_row (λ d. d.nodes) (λ m d. record d { nodes = m }) (λ d. servers) (λ m d. refl)
        (λ d. servers-IsAscending);
  score_aggregates =
      table_in aggregate_row (λ d. d.aggregates) (λ m d. record d { aggregates = m })
        (λ d. score ∷ []) (λ m d. refl) (λ d. (tt, tt));
}

abbrev connected : List String
connected = "p" ∷ "p10" ∷ "p1" ∷ "p" ∷ []

-- This server is "p", and the one with the better score comes first.
chosen :
    map {B = String × ℕ}
      (λ (v : SyncValidator). (v.peer_id, v.weight))
      (discover_validators by_length by_length with_servers connected "p" 3 here_tables)
    ≡ ("p1", 81) ∷ ("p10", 50) ∷ []
unfolding discover_validators open_chat_be.Sync.Examples.Memory.table_in open_chat_be.Prelude.sort
    open_chat_be.Prelude.place open_chat_be.Prelude.lookup open_chat_be.Prelude.insert
    open_chat_be.Prelude.to_set open_chat_be.Prelude.contains open_chat_be.Prelude.add_all
    open_chat_be.Prelude.add open_chat_be.Text.count_chars
chosen = refl

discover_validators-IsEligible_example :
    All
      (IsEligible by_length by_length with_servers connected "p")
      (discover_validators by_length by_length with_servers connected "p" 3 here_tables)
    × (length (discover_validators by_length by_length with_servers connected "p" 3 here_tables)
        ≤ max 1 3)
    × IsSortedBy
        (validator_before by_length by_length with_servers)
        (discover_validators by_length by_length with_servers connected "p" 3 here_tables)
discover_validators-IsEligible_example =
    discover_validators-IsEligible by_length by_length with_servers connected "p" 3 here_tables

abbrev busy : RunState
busy = (run_sync true no_run).0

run_sync-followed_example :
    (busy.executing ≤ 1)
    × (busy.is_sync_running ≡ true
        → ((calls true 3 busy).executing ≡ 1)
          × ((execution_ended true (calls true 3 busy)).1 ≡ true)
          × ((execution_ended true (execution_ended true (calls true 3 busy)).0).1 ≡ false))
run_sync-followed_example = run_sync-followed true busy 2 (later idle (requested no_run))

-- A hash is a mark for each hop, and a signature is the hash.
abbrev gossip : GossipWorld
gossip = record {
  to_lower_case = λ s. s;
  to_iso_string = λ at. "";
  create_event_hash = λ e. if nat_beq e.hop_count 0 then "h0" else "h1";
  hash_unsigned = λ e s. refl;
  sign_message = λ hash. hash;
  verify = λ signature hash key. ok (signature == hash);
}

abbrev event : String → DmDeleteGossipEvent
event signature = record {
  acked_at = "";
  event_id = "e1";
  hop_count = 0;
  max_hops = 3;
  message_id = "m1";
  origin_peer_id = "p1";
  recipient_public_key = "k";
  reporter_server_public_key = "0xaa";
  signature = signature;
}

abbrev copy_of : DmDeleteGossipEvent
copy_of = create_forwarded_event gossip 60 (event "h0")

handle_event-applied_example :
    ((copy : Option DmDeleteGossipEvent) × ((handle_event gossip 60 table 5 (event "h0") [] []).0
        ≡ applied copy)
      × (verify_event_signature gossip 60 (event "h0") ≡ ok true)
      × (table.find_unique "m1" (handle_event gossip 60 table 5 (event "h0") [] []).2 ≡ none)
      × ((id : String)
          → id ≢ "m1"
          → table.find_unique id (handle_event gossip 60 table 5 (event "h0") [] []).2
            ≡ table.find_unique id [])
      × ((forwarded : DmDeleteGossipEvent)
          → copy ≡ some forwarded
          → (forwarded.hop_count ≡ 0 + 1) × (forwarded.hop_count ≤ 3)))
    ⊎ ((handle_event gossip 60 table 5 (event "h0") [] []).2 ≡ [])
handle_event-applied_example = handle_event-applied gossip 60 table 5 (event "h0") [] []

handle_event-forwarded_example :
    ((handle_event gossip 60 table 6 copy_of [] []).2 ≡ [])
    ⊎ ((copy_of.hop_count ≡ 0 + 1)
        × (gossip.verify "h0" "h0" "0xaa" ≡ ok true)
        × (gossip.verify "h0" "h1" "0xaa" ≡ ok true))
unfolding handle_event open_chat_be.Sync.Gossip.should_process_event open_chat_be.Prelude.has
    open_chat_be.Sync.Gossip.cleanup_dedupe_cache verify_event_signature
handle_event-forwarded_example =
    handle_event-forwarded gossip 60 table 5 6 (event "h0") copy_of [] [] [] [] refl

handle_event-poisoned_example :
    handle_event gossip 60 table 6
      (event "h0")
      (handle_event gossip 60 table 5 (event "bad") [] []).1
      []
    ≡ (
      repeated,
      (handle_event gossip 60 table 6
          (event "h0")
          (handle_event gossip 60 table 5 (event "bad") [] []).1
          []).1,
      [],
    )
unfolding handle_event open_chat_be.Sync.Gossip.should_process_event open_chat_be.Prelude.has
    open_chat_be.Sync.Gossip.cleanup_dedupe_cache verify_event_signature
handle_event-poisoned_example =
    handle_event-poisoned gossip 60 table 5 6 (event "bad") (event "h0") [] [] refl refl
      (omega arith)
