-- ===== src/DirectMessages/Examples.antt =====
-- A table kept in memory that obeys the laws of the database, and runs of the handlers on it.
use open_chat_be.Prelude.{
  Bool, List, Option, String, [], arith, if◌then◌else◌, keep, map, nat_eq, none, not, refl, some,
  string_eq, true, ◌==◌, ◌∷◌, ◌≡◌,
}
use mathlib.Core.Option
use open_chat_be.Json.{Value}
use open_chat_be.DirectMessages.Types.{DirectMessage}
use open_chat_be.DirectMessages.Table.{MessageTable, with_replicas}
pub mod Runs

-- The row that stands first under an identifier.
abbrev pub find_row : String → List DirectMessage → Option DirectMessage
find_row id [] = none
find_row id (row ∷ rows) = if row.id == id then some row else find_row id rows

pub find_row-id :
    (id : String) (row : DirectMessage) (rows : List DirectMessage)
    → find_row id rows ≡ some row
    → row.id ≡ id
find_row-id id row [] h = cc
find_row-id id row (r ∷ rows) h = ground (arith, find_row-id id row rows, string_eq.beq_iff r.id id)

find_row-keep :
    (t : String → Bool) (id : String) (rows : List DirectMessage)
    → find_row id (keep (λ row. t row.id) rows) ≡ (if t id then find_row id rows else none)
find_row-keep t id [] = ground arith
find_row-keep t id (r ∷ rows) = ground (arith, find_row-keep t id rows, string_eq.beq_iff r.id id)

abbrev put : String → Value → DirectMessage → DirectMessage
put k v row = if row.id == k then with_replicas v row else row

pub find_row-put :
    (k : String) (v : Value) (id : String) (rows : List DirectMessage)
    → find_row id (map (put k v) rows)
      ≡ (if k == id then Option.map (with_replicas v) (find_row id rows) else find_row id rows)
find_row-put k v id [] = ground arith
find_row-put k v id (r ∷ rows) = ground (
  arith,
  find_row-put k v id rows,
  string_eq.beq_iff r.id id,
  string_eq.beq_iff r.id k,
  string_eq.beq_iff k id,
)

abbrev without : String → List DirectMessage → List DirectMessage
without k rows = keep (λ row. not (k == row.id)) rows

pub find_row-without :
    (k id : String) (rows : List DirectMessage)
    → find_row id (without k rows) ≡ (if k == id then none else find_row id rows)
find_row-without k id rows = ground (arith, find_row-keep (λ j. not (k == j)) id rows)

abbrev stays : (DirectMessage → Bool) → Option DirectMessage → Bool
stays p none = true
stays p (some row) = not (p row)

abbrev without_all : (DirectMessage → Bool) → List DirectMessage → List DirectMessage
without_all p rows = keep (λ row. stays p (find_row row.id rows)) rows

pub find_row-without_all :
    (p : DirectMessage → Bool) (id : String) (rows : List DirectMessage)
    → find_row id (without_all p rows)
      ≡ (if stays p (find_row id rows) then find_row id rows else none)
find_row-without_all p id rows = find_row-keep (λ j. stays p (find_row j rows)) id rows

pub find_row-all_none :
    (p : DirectMessage → Bool) (id : String) (rows : List DirectMessage)
    → find_row id rows ≡ none
    → find_row id (without_all p rows) ≡ none
find_row-all_none p id rows h = ground (arith, h, find_row-without_all p id rows)

pub find_row-all_some :
    (p : DirectMessage → Bool) (id : String) (row : DirectMessage) (rows : List DirectMessage)
    → find_row id rows ≡ some row
    → find_row id (without_all p rows) ≡ (if p row then none else some row)
find_row-all_some p id row rows h = ground (arith, h, find_row-without_all p id rows)

unfoldable pub table : MessageTable (List DirectMessage)
table = record {
  find_unique = find_row;
  upsert = λ row d. row ∷ d;
  update_replicas = λ k v d. map (put k v) d;
  delete = without;
  delete_many = without_all;
  rows = λ d. d;
  find-id = find_row-id;
  find-upsert = λ row id d. refl;
  find-update_replicas = find_row-put;
  find-delete = find_row-without;
  find-delete_many-none = find_row-all_none;
  find-delete_many-some = find_row-all_some;
}
