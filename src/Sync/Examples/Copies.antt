-- ===== src/Sync/Examples/Copies.antt =====
-- A server copies the users of another one, two at a time.
use open_chat_be.Prelude.{
  All, List, Option, String, [], arith, inl, insert, lookup, map, nat_eq, none, refl, some, sort,
  string_eq, ℕ, ◌∷◌, ◌≡◌, ◌≢◌,
}
use open_chat_be.Json.{Value}
use open_chat_be.Sync.Types.{SyncRowEnvelope, user}
use open_chat_be.Sync.Tables.{
  user_row, User, TableRow, extract_primary_key, to_row_envelope, to_payload,
}
use open_chat_be.Sync.Database.{IsAscending, Tables}
use open_chat_be.Sync.Serve.{handle_fetch_request}
use open_chat_be.Sync.Serve.Paging.{all_rows}
use open_chat_be.Sync.Apply.Latest.{find_row}
use open_chat_be.Sync.Apply.RoundTrip.{row_here}
use open_chat_be.Sync.Apply.Many.{merged}
use open_chat_be.Sync.Startup.Agreed.{IsAgreed}
use open_chat_be.Sync.Votes.{resolve_row_consensus, decide_row, count_votes}
use open_chat_be.Sync.Apply.{apply_rows, apply_single_row, apply_row, put, synced_user}
use open_chat_be.Results.{ok}
use open_chat_be.Json.{get_field}
use open_chat_be.Sync.Startup.{collect_votes, StartupSyncRuntime, fetch_response}
use open_chat_be.Sync.Startup.Loop.{SyncState, SyncConfig, sync_table, finished}
use open_chat_be.Sync.Startup.Complete.{sync_table_complete}
use open_chat_be.Sync.Examples.Memory.{Store, by_length, queries, world}

abbrev pub person : String → Option String → ℕ → User
person public_key name at = record {
  created_at = 1;
  email = none;
  name = name;
  phone = none;
  public_key = public_key;
  quote = none;
  updated_at = at;
  username = none;
  verfiication_id = none;
  x25519_public_key = none;
}

abbrev pub here : Store
here = record {
  nodes = [];
  reports = [];
  aggregates = [];
  people = ("aa", person "aa" (some "Ann") 9) ∷ [];
  messages = [];
  given = [];
  given-IsAscending = tt;
}

abbrev pub three : List User
three = person "a" (some "Al") 2 ∷ person "aa" (some "An") 3 ∷ person "aaa" (some "Abe") 4 ∷ []

pub three-IsAscending : IsAscending by_length (λ r. extract_primary_key (user_row r)) three
unfolding open_chat_be.Text.count_chars
three-IsAscending = ((refl, (refl, tt)), ((refl, tt), (tt, tt)))

abbrev pub source : Store
source = record {
  nodes = [];
  reports = [];
  aggregates = [];
  people = [];
  messages = [];
  given = three;
  given-IsAscending = three-IsAscending;
}

abbrev pub tables_of : Store → Tables Store
tables_of d = record { nodes = d; reports = d; aggregates = d; people = d; messages = d }

abbrev pub here_tables : Tables Store
here_tables = tables_of here

abbrev pub there : Tables Store
there = tables_of source

abbrev pub runtime : StartupSyncRuntime
runtime = record {
  connected_peer_ids = "p1" ∷ [];
  local_peer_id = "p0";
  ask_manifest = λ attempt peer_id. none;
  ask_fetch = λ peer_id request.
      some (fetch_response (handle_fetch_request by_length queries world 7 request there));
  ask_verify = λ peer_id request. none;
  ask_by_keys = λ peer_id request. none;
}

abbrev pub config : SyncConfig
config = record { sync_batch_size = 2; sync_validator_target = 3 }

abbrev pub state : SyncState Store
state = record { tables = here_tables; weak_consensus_queue = [] }

-- Where nobody votes, nothing is disputed.
nobody :
    (items : List (SyncRowEnvelope Value)) (rows : List TableRow)
    → All
        (λ row.
          IsAgreed by_length
            (collect_votes runtime "run" user items [])
            (to_row_envelope world row))
        rows
unfolding collect_votes resolve_row_consensus decide_row count_votes open_chat_be.Prelude.sort
nobody items [] = tt
nobody items (row ∷ rows) = (inl refl, nobody items rows)

-- The three users can be written.
writable :
    (apply_rows world by_length queries 8
      (map (to_row_envelope world) (all_rows by_length queries world 7 user there))
      here_tables).0
    ≡ ok tt
unfolding apply_rows apply_single_row apply_row put queries
    open_chat_be.Sync.Examples.Memory.table_in to_row_envelope world lookup
    open_chat_be.Sync.Examples.Memory.marks open_chat_be.Text.count_chars insert synced_user
    to_payload get_field
writable = refl

sync_table_complete_example :
    (s' : SyncState Store) × (sync_table by_length by_length queries world config runtime 4 8 "run"
        "p1" user [] none state
      ≡ (finished, s'))
    × All
        (λ row.
          row_here by_length queries world row s'.tables
          ≡ merged by_length queries world 8 here_tables row)
        (all_rows by_length queries world 7 user there)
    × ((key : String)
        → All (λ row. extract_primary_key row ≢ key) (all_rows by_length queries world 7 user there)
        → find_row by_length queries user key s'.tables
          ≡ find_row by_length queries user key here_tables)
unfolding queries open_chat_be.Sync.Examples.Memory.table_in
sync_table_complete_example =
    sync_table_complete by_length by_length queries world config runtime 8 "run" "p1" user [] 7
      there (λ request same. refl) (λ cursor. nobody _ _) (cc, (cc, (cc, tt))) 4 state (omega arith)
      writable
