-- ===== src/Sync/Examples/Memory.antt =====
-- Tables kept in memory that obey the laws of the database. The rows of users that are given away
-- are a fixed list, which the writes do not change.
use open_chat_be.Prelude.{
  List, Map, Option, String, [], ap, arith, false, insert, keep, leb, length, lookup, lookup-insert,
  nat_eq, none, refl, some, string_eq, suc, take, true, zero, ℕ, ◌∙◌, ◌≡◌,
}
use Prim.Native.String
use mathlib.Core.List.Perm
use open_chat_be.Text.{TextOrder, count_chars}
use open_chat_be.Sync.Tables.{
  ServerNode, ServerScoreReport, ServerScoreAggregate, User, StoredMessage, TableRow, node_row,
  report_row, aggregate_row, user_row, message_row, extract_primary_key, SyncWorld,
}
use open_chat_be.Sync.Database.{RowTable, Queries, IsAscending}

pub length_total : (a b : ℕ) → leb a b ≡ false → leb b a ≡ true
length_total a b h = ground arith

pub length_trans : (a b c : ℕ) → leb a b ≡ true → leb b c ≡ true → leb a c ≡ true
length_trans a b c h k = ground arith

-- Texts in the order of their length.
abbrev pub by_length : TextOrder
by_length = record {
  before = λ a b. leb (count_chars a) (count_chars b);
  total = λ a b h. length_total (count_chars a) (count_chars b) h;
  trans = λ a b c h k. length_trans (count_chars a) (count_chars b) (count_chars c) h k;
}

pub record Store : Type 0 where
  pub nodes : Map String ServerNode
  pub reports : Map String ServerScoreReport
  pub aggregates : Map String ServerScoreAggregate
  pub people : Map String User
  pub messages : Map String StoredMessage
  pub given : List User
  pub given-IsAscending : IsAscending by_length (λ r. extract_primary_key (user_row r)) given

-- A table that gives away the rows `given`, with what is under the keys in a map of the store.
unfoldable pub table_in :
    {R : Type 0} (to_row : R → TableRow) (get : Store → Map String R)
    (set : Map String R → Store → Store) (given : Store → List R)
    → ((m : Map String R) (d : Store) → get (set m d) ≡ m)
    → ((d : Store) → IsAscending by_length (λ r. extract_primary_key (to_row r)) (given d))
    → RowTable by_length Store R to_row
table_in to_row get set given law ascending = record {
  rows = given;
  find_unique = λ key d. lookup key (get d);
  upsert = λ key f d. set (insert key (f (lookup key (get d))) (get d)) d;
  find_many = λ test limit d. take limit (keep test (given d));
  find_all = λ test d. keep test (given d);
  count = λ test d. length (keep test (given d));
  rows-IsAscending = ascending;
  find-upsert = λ key other f d free.
      ap (λ m. lookup other m) (law (insert key (f (lookup key (get d))) (get d)) d)
      ∙ lookup-insert key other (f (lookup key (get d))) (get d);
  find_many-rows = λ test limit d. refl;
  find_all-rows = λ test d. Perm.refl (keep test (given d));
  count-rows = λ test d. refl;
}

unfoldable pub queries : Queries by_length Store
queries = record {
  server_nodes =
      table_in node_row (λ d. d.nodes) (λ m d. record d { nodes = m }) (λ d. []) (λ m d. refl)
        (λ d. tt);
  score_reports =
      table_in report_row (λ d. d.reports) (λ m d. record d { reports = m }) (λ d. []) (λ m d. refl)
        (λ d. tt);
  score_aggregates =
      table_in aggregate_row (λ d. d.aggregates) (λ m d. record d { aggregates = m }) (λ d. [])
        (λ m d. refl) (λ d. tt);
  users =
      table_in user_row (λ d. d.people) (λ m d. record d { people = m }) (λ d. d.given)
        (λ m d. refl) (λ d. d.given-IsAscending);
  direct_messages =
      table_in message_row (λ d. d.messages) (λ m d. record d { messages = m }) (λ d. [])
        (λ m d. refl) (λ d. tt);
}

-- A date is written with a mark for each millisecond.
unfoldable pub marks : ℕ → String
marks zero = String.[]
marks (suc n) = String.◌∷◌ "i" (marks n)

pub count-marks : (n : ℕ) → count_chars (marks n) ≡ n
unfolding marks count_chars
count-marks zero = refl
count-marks (suc n) = ap suc (count-marks n)

abbrev pub read_date : String → Option ℕ
read_date String.[] = none
read_date (String.◌∷◌ c s) = some (count_chars s)

unfoldable pub world : SyncWorld
world = record {
  to_iso_string = λ at. String.◌∷◌ "d" (marks at);
  parse_date = read_date;
  parse_date-to_iso_string = λ at. ap some (count-marks at);
  to_iso_string-ne-nil = λ at h. cc h;
  row_hash = λ payload key table at. String.◌++◌ key at;
  text_of = λ v. "";
  number_of = λ v. 0;
}
