-- ===== src/Sync/Examples/Rows.antt =====
-- Rows that one server writes for another, and the row that a vote comes to.
use open_chat_be.Prelude.{
  String, [], false, if◌then◌else◌, insert, lookup, nat_eq, none, refl, some, string_eq, true, ◌∷◌,
  ◌≡◌, ◌≢◌, ◌⊎◌,
}
use open_chat_be.Results.{ok, err}
use open_chat_be.Json.{Value, null, get_field}
use open_chat_be.Sync.Types.{SyncRowEnvelope, user}
use open_chat_be.Sync.Tables.{TableRow, user_row, to_row_envelope, to_payload, User}
use open_chat_be.Sync.Database.{Tables, unique_failure}
use open_chat_be.Sync.Apply.Received.{received_user}
use open_chat_be.Sync.Apply.{apply_single_row, apply_row, put, synced_user}
use open_chat_be.Sync.Apply.Latest.{find_row, apply_single_row-kept, row_is_newer, SameElsewhere}
use open_chat_be.Sync.Apply.RoundTrip.{
  row_here, received, is_older, apply_single_row-to_row_envelope, is_blocked,
}
use open_chat_be.Sync.Votes.{RowConsensusResult}
use open_chat_be.Sync.Startup.{
  StartupSyncRuntime, by_keys_response, resolve_row, ask_supporters, fetch_row_from_supporters,
}
use open_chat_be.Sync.Startup.Resolved.{resolve_row-chosen}
use open_chat_be.Sync.Examples.Memory.{Store, by_length, queries, world}
use open_chat_be.Sync.Examples.Copies.{person, here_tables, here, tables_of, runtime}

-- A row that is new here.
abbrev al : TableRow
al = user_row (person "a" (some "Al") 2)

-- A row that is older than the one that is here.
abbrev an : TableRow
an = user_row (person "aa" (some "An") 3)

apply_single_row-to_row_envelope_example :
    ((is_older by_length queries world al (row_here by_length queries world al here_tables) ≡ false)
      × (is_blocked by_length queries world 8 here_tables al ≡ true)
      × (apply_single_row world by_length queries 8 (to_row_envelope world al) here_tables
          ≡ err unique_failure))
    ⊎ ((t' : Tables Store) × (apply_single_row world by_length queries 8
            (to_row_envelope world al)
            here_tables
          ≡ ok t')
        × (row_here by_length queries world al t' ≡ (
            if is_older by_length queries world al (row_here by_length queries world al here_tables)
            then row_here by_length queries world al here_tables
            else some (received by_length queries world 8 here_tables al))))
apply_single_row-to_row_envelope_example =
    apply_single_row-to_row_envelope by_length queries world 8 al here_tables

-- A user with the name "n" is here, and another user with that name comes.
abbrev named_n : String → User
named_n key = record (person key (some "Al") 2) { username = some "n" }

abbrev full_tables : Tables Store
full_tables = tables_of (record here { given = named_n "b" ∷ []; given-IsAscending = (tt, tt) })

-- The write fails.
name_taken :
    apply_single_row world by_length queries 8
      (to_row_envelope world (user_row (named_n "a")))
      full_tables
    ≡ err unique_failure
unfolding apply_single_row apply_row put queries open_chat_be.Sync.Examples.Memory.table_in
    to_row_envelope lookup synced_user to_payload get_field
name_taken = refl

apply_single_row-kept_example :
    (row_is_newer by_length queries world
          (find_row by_length queries user "aa" here_tables)
          (to_row_envelope world an)
        ≡ true
      → here_tables ≡ here_tables)
    × ((other : String)
        → "aa" ≢ other
        → find_row by_length queries user other here_tables
          ≡ find_row by_length queries user other here_tables)
    × SameElsewhere by_length queries user here_tables here_tables
unfolding apply_single_row apply_row put queries open_chat_be.Sync.Examples.Memory.table_in
    to_row_envelope world lookup open_chat_be.Sync.Examples.Memory.marks
    open_chat_be.Text.count_chars
apply_single_row-kept_example =
    apply_single_row-kept by_length queries world 8 (to_row_envelope world an) here_tables
      here_tables refl

abbrev with_al : Tables Store
with_al = record here_tables {
  people = record here {
    people = insert "a" (received_user 8 none (person "a" (some "Al") 2)) here.people;
  };
}

abbrev row_with : String → SyncRowEnvelope Value
row_with hash = record {
  canonical_hash = hash;
  payload = null;
  primary_key = "a";
  table = user;
  updated_at = "";
}

abbrev helpful : StartupSyncRuntime
helpful = record runtime {
  ask_by_keys = λ peer_id request.
      some (by_keys_response (record { items = row_with "h2" ∷ []; run_id = "run"; table = user }));
}

abbrev verdict : RowConsensusResult
verdict = record {
  chosen_hash = "h2";
  primary_key = "a";
  supporting_peer_ids = "p2" ∷ [];
  weak_consensus = false;
}

resolve_row-chosen_example :
    ((row_with "h2" ≡ row_with "h1")
      × ((verdict.chosen_hash ≡ "")
          ⊎ (verdict.chosen_hash ≡ (row_with "h1").canonical_hash)
          ⊎ (false ≡ true)))
    ⊎ (((row_with "h2").canonical_hash ≡ verdict.chosen_hash) × (false ≡ verdict.weak_consensus))
unfolding resolve_row fetch_row_from_supporters ask_supporters
resolve_row-chosen_example = resolve_row-chosen helpful "run" user verdict [] (row_with "h1")
