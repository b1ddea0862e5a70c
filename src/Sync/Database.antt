-- ===== src/Sync/Database.antt =====
-- The queries of src/modules/peer_network/sync/services/table_sync_runner.service.ts, with the
-- documented replies of the database, over any state `D` of a table.
use open_chat_be.Prelude.{
  All, Bool, List, Option, String, [], false, if◌then◌else◌, keep, length, nat_beq, nat_eq, not,
  some, string_eq, take, true, ℕ, ◌&&◌, ◌==◌, ◌||◌, ◌∷◌, ◌≡◌,
}
use mathlib.Core.List.{Perm}
use open_chat_be.Results.{Exception, failure}
use open_chat_be.Text.{TextOrder}
use open_chat_be.Sync.Tables.{
  message_row, user_row, aggregate_row, extract_primary_key, report_row, node_row, TableRow,
  ServerNode, ServerScoreReport, ServerScoreAggregate, User, StoredMessage,
}

-- `gt` on texts
abbrev pub is_after : TextOrder → String → String → Bool
is_after order cursor key = not (order.before key cursor)

-- Each key is after the one before it, so that no two are equal.
abbrev pub IsAscending : {R : Type 0} → TextOrder → (R → String) → List R → Type 0
IsAscending order key_of [] = Unit
IsAscending order key_of (r ∷ rs) =
    All (λ later. is_after order (key_of r) (key_of later) ≡ true) rs × IsAscending order key_of rs

abbrev same_text : Option String → Option String → Bool
same_text (some a) (some b) = a == b
same_text a b = false

-- The unique columns of prisma/schema.prisma other than the key: a name and an encryption key of a
-- user, and the two servers and the date of a report.
abbrev pub shares_unique : TableRow → TableRow → Bool
shares_unique (user_row a) (user_row b) =
    same_text a.username b.username || same_text a.x25519_public_key b.x25519_public_key
shares_unique (report_row a) (report_row b) =
    a.reporter_peer_id == b.reporter_peer_id
    && a.target_peer_id == b.target_peer_id
    && nat_beq a.observed_at b.observed_at
shares_unique a b = false

-- Whether a row under another key has a unique column of the new row.
abbrev pub is_taken : {R : Type 0} → (R → TableRow) → String → R → List R → Bool
is_taken to_row key new [] = false
is_taken to_row key new (r ∷ rs) =
    (not (extract_primary_key (to_row r) == key) && shares_unique (to_row new) (to_row r))
    || is_taken to_row key new rs

abbrev pub unique_failure : Exception
unique_failure = failure "Unique constraint failed"

-- `findUnique`, `upsert` of a row that breaks no constraint, `findMany` in the order of the key with `take`, `findMany` in some order,
-- and `count`; `rows` are all rows in the order of the key, which is unique.
-- `to_row` says which table it is.
pub record RowTable (order : TextOrder) (D R : Type 0) (to_row : R → TableRow) : Type 0 where
  pub rows : D → List R
  pub find_unique : String → D → Option R
  pub upsert : String → (Option R → R) → D → D
  pub find_many : (R → Bool) → ℕ → D → List R
  pub find_all : (R → Bool) → D → List R
  pub count : (R → Bool) → D → ℕ
  pub rows-IsAscending : (d : D) → IsAscending order (λ r. extract_primary_key (to_row r)) (rows d)
  pub find-upsert :
      (key other : String) (f : Option R → R) (d : D)
      → is_taken to_row key (f (find_unique key d)) (rows d) ≡ false
      → find_unique other (upsert key f d)
        ≡ (if key == other then some (f (find_unique key d)) else find_unique other d)
  pub find_many-rows :
      (test : R → Bool) (limit : ℕ) (d : D)
      → find_many test limit d ≡ take limit (keep test (rows d))
  pub find_all-rows : (test : R → Bool) (d : D) → Perm (find_all test d) (keep test (rows d))
  pub count-rows : (test : R → Bool) (d : D) → count test d ≡ length (keep test (rows d))

pub record Queries (order : TextOrder) (D : Type 0) : Type 0 where
  pub server_nodes : RowTable order D ServerNode node_row
  pub score_reports : RowTable order D ServerScoreReport report_row
  pub score_aggregates : RowTable order D ServerScoreAggregate aggregate_row
  pub users : RowTable order D User user_row
  pub direct_messages : RowTable order D StoredMessage message_row

-- The tables do not share rows: each has a state of its own.
pub record Tables (D : Type 0) : Type 0 where
  pub nodes : D
  pub reports : D
  pub aggregates : D
  pub people : D
  pub messages : D
