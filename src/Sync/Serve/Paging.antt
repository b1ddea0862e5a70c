-- ===== src/Sync/Serve/Paging.antt =====
-- Following the cursors of another server: a page and the ones that its cursor leads to are what is
-- left of the table, in the order of the key.
use open_chat_be.Prelude.{
  All, Bool, List, Option, Option-cases, String, [], ap, arith, drop, inl, inr, keep, length,
  length-take, map, nat_eq, none, refl, some, string_eq, subst, suc, sym, take, take-all, true,
  zero, ℕ, ◌&&◌, ◌∙◌, ◌∷◌, ◌≡◌, ◌≢◌,
}
use open_chat_be.Text.{TextOrder}
use open_chat_be.Sync.Types.{
  SyncTableName, server_node, server_score_report, server_score_aggregate, user, direct_message,
}
use open_chat_be.Sync.Tables.{
  TableRow, node_row, report_row, aggregate_row, user_row, message_row, extract_primary_key,
  SyncWorld,
}
use open_chat_be.Sync.Ordered.{
  keep-map, take-map, keep-keep, keep-weaken, is_after_trans, IsAscending-keep, keep_after_last,
  All-keep, All-kept, All-last,
}
use open_chat_be.Sync.Database.{RowTable, Queries, Tables, is_after, IsAscending}
use open_chat_be.Sync.Serve.{past, is_current, page, fetch_table_rows, last_of, next_cursor_of}

module _ (order : TextOrder) where
  past_later :
      (cursor : Option String) (c key : String)
      → past order cursor c ≡ true
      → is_after order c key ≡ true
      → past order cursor key ≡ true
  past_later none c key h k = refl
  past_later (some cursor) c key h k = ground (arith, h, k, is_after_trans order cursor c key)

module _ {D : Type 0} (order : TextOrder) (queries : Queries order D) (world : SyncWorld) where
  -- All rows of a table that a server gives away.
  abbrev pub all_rows : ℕ → SyncTableName → Tables D → List TableRow
  all_rows now server_node t = map node_row (keep (λ r. true) (queries.server_nodes.rows t.nodes))
  all_rows now server_score_report t =
      map report_row (keep (λ r. true) (queries.score_reports.rows t.reports))
  all_rows now server_score_aggregate t =
      map aggregate_row (keep (λ r. true) (queries.score_aggregates.rows t.aggregates))
  all_rows now user t = map user_row (keep (λ r. true) (queries.users.rows t.people))
  all_rows now direct_message t =
      map message_row (keep (is_current now) (queries.direct_messages.rows t.messages))

  abbrev pub left : Option String → List TableRow → List TableRow
  left cursor rows = keep (λ row. past order cursor (extract_primary_key row)) rows

  page_lem :
      {R : Type 0} (to_row : R → TableRow) (rows : RowTable order D R to_row) (test : R → Bool)
      (cursor : Option String) (limit : ℕ) (d : D)
      → page order queries world to_row rows test cursor limit d
        ≡ take limit (left cursor (map to_row (keep test (rows.rows d))))
  page_lem to_row rows test cursor limit d =
      let p = λ (row : TableRow). past order cursor (extract_primary_key row) in
      ap (λ rs. map to_row rs) (rows.find_many-rows (λ r. p (to_row r) && test r) limit d)
      ∙ sym (take-map limit to_row (keep (λ r. p (to_row r) && test r) (rows.rows d)))
      ∙ ap (λ rs. take limit (map to_row rs)) (keep-keep (λ r. p (to_row r)) test (rows.rows d))
      ∙ ap (λ rs. take limit rs) (sym (keep-map p to_row (keep test (rows.rows d))))

  pub fetch_table_rows_lem :
      (now : ℕ) (table : SyncTableName) (cursor : Option String) (limit : ℕ) (t : Tables D)
      → fetch_table_rows order queries world now table cursor limit t
        ≡ take limit (left cursor (all_rows now table t))
  unfolding fetch_table_rows
  fetch_table_rows_lem now server_node cursor limit t =
      page_lem node_row queries.server_nodes (λ r. true) cursor limit t.nodes
  fetch_table_rows_lem now server_score_report cursor limit t =
      page_lem report_row queries.score_reports (λ r. true) cursor limit t.reports
  fetch_table_rows_lem now server_score_aggregate cursor limit t =
      page_lem aggregate_row queries.score_aggregates (λ r. true) cursor limit t.aggregates
  fetch_table_rows_lem now user cursor limit t =
      page_lem user_row queries.users (λ r. true) cursor limit t.people
  fetch_table_rows_lem now direct_message cursor limit t =
      page_lem message_row queries.direct_messages (is_current now) cursor limit t.messages

  All-map_row :
      {R : Type 0} (to_row : R → TableRow) (P : TableRow → Type 0) (rs : List R)
      → All (λ r. P (to_row r)) rs
      → All P (map to_row rs)
  All-map_row to_row P [] h = tt
  All-map_row to_row P (r ∷ rs) h = (h.0, All-map_row to_row P rs h.1)

  IsAscending-map :
      {R : Type 0} (to_row : R → TableRow) (rs : List R)
      → IsAscending order (λ r. extract_primary_key (to_row r)) rs
      → IsAscending order extract_primary_key (map to_row rs)
  IsAscending-map to_row [] h = tt
  IsAscending-map to_row (r ∷ rs) h = (
    All-map_row to_row
        (λ later.
          is_after order (extract_primary_key (to_row r)) (extract_primary_key later) ≡ true)
        rs h.0,
    IsAscending-map to_row rs h.1,
  )

  IsAscending-of :
      {R : Type 0} (to_row : R → TableRow) (rows : RowTable order D R to_row) (test : R → Bool)
      (d : D)
      → IsAscending order extract_primary_key (map to_row (keep test (rows.rows d)))
  IsAscending-of to_row rows test d = IsAscending-map to_row (keep test (rows.rows d)) (
      IsAscending-keep order (λ r. extract_primary_key (to_row r)) test (rows.rows d)
        (rows.rows-IsAscending d))

  pub all_rows-IsAscending :
      (now : ℕ) (table : SyncTableName) (t : Tables D)
      → IsAscending order extract_primary_key (all_rows now table t)
  all_rows-IsAscending now server_node t =
      IsAscending-of node_row queries.server_nodes (λ r. true) t.nodes
  all_rows-IsAscending now server_score_report t =
      IsAscending-of report_row queries.score_reports (λ r. true) t.reports
  all_rows-IsAscending now server_score_aggregate t =
      IsAscending-of aggregate_row queries.score_aggregates (λ r. true) t.aggregates
  all_rows-IsAscending now user t = IsAscending-of user_row queries.users (λ r. true) t.people
  all_rows-IsAscending now direct_message t =
      IsAscending-of message_row queries.direct_messages (is_current now) t.messages

  module _ (now : ℕ) (table : SyncTableName) (t : Tables D) (limit : ℕ)
      (cursor : Option String) where
    abbrev pub rest : List TableRow
    rest = left cursor (all_rows now table t)

    some_last :
        (n : ℕ) (xs : List TableRow)
        → length (take (suc n) xs) ≡ suc n
        → last_of (take (suc n) xs) ≢ none
    some_last n [] h e = omega arith
    some_last zero (x ∷ xs) h e = cc e
    some_last (suc n) (x ∷ []) h e = omega arith
    some_last (suc n) (x ∷ y ∷ xs) h e = some_last n (y ∷ xs) (omega arith) e

    -- An answer without a cursor holds all that was left.
    pub page-last :
        next_cursor_of order queries world (suc limit) (take (suc limit) rest) ≡ none
        → take (suc limit) rest ≡ rest
    page-last h =
        let full = some_last limit rest in
        take-all (suc limit) rest (ground (arith, h, length-take (suc limit) rest, full))

    -- A cursor is the key of a row.
    pub page-cursor :
        (c : String)
        → All (λ row. extract_primary_key row ≢ "") (all_rows now table t)
        → next_cursor_of order queries world limit (take limit rest) ≡ some c
        → c ≢ ""
    page-cursor c named h = elim (Option-cases (last_of (take limit rest))) [
      | inl none_last ↦ absurd (ground (arith, h, none_last))
      | inr (r, found) ↦
          let same : extract_primary_key r ≡ c = ground (arith, h, found) in
          let kept =
            All-keep (λ row. extract_primary_key row ≢ "")
              (λ row. past order cursor (extract_primary_key row)) (all_rows now table t) named in
          subst (λ k. k ≢ "") same
            (All-last (λ row. extract_primary_key row ≢ "") limit rest r kept found)
    ]

    -- What is left after the cursor of an answer is what the answer leaves.
    pub page-next :
        (c : String)
        → All (λ row. extract_primary_key row ≢ "") (all_rows now table t)
        → next_cursor_of order queries world limit (take limit rest) ≡ some c
        → left (some c) (all_rows now table t) ≡ drop limit rest
    page-next c named h = elim (Option-cases (last_of (take limit rest))) [
      | inl none_last ↦ absurd (ground (arith, h, none_last))
      | inr (r, found) ↦
          let same : extract_primary_key r ≡ c = ground (arith, h, found) in
          let given = page-cursor c named h in
          let reached : past order cursor c ≡ true =
            subst (λ k. past order cursor k ≡ true) same
              (All-last (λ row. past order cursor (extract_primary_key row) ≡ true) limit rest r
                (All-kept (λ row. past order cursor (extract_primary_key row))
                  (all_rows now table t))
                found) in
          let after : past order (some c) ≡ is_after order c =
            ground (arith, string_eq.beq_iff c "", given) in
          sym (
            keep-weaken (λ row. past order (some c) (extract_primary_key row))
              (λ row. past order cursor (extract_primary_key row)) (all_rows now table t)
              (λ row later.
                past_later order cursor c (extract_primary_key row) reached
                  (ap (λ f. f (extract_primary_key row)) (sym after) ∙ later)))
          ∙ ap (λ (f : String → Bool). keep (λ row. f (extract_primary_key row)) rest) after
          ∙ subst
              (λ k. keep (λ row. is_after order k (extract_primary_key row)) rest ≡ drop limit rest)
              same
              (keep_after_last order extract_primary_key limit rest r
                (IsAscending-keep order extract_primary_key
                  (λ row. past order cursor (extract_primary_key row)) (all_rows now table t)
                  (all_rows-IsAscending now table t))
                found)
    ]
