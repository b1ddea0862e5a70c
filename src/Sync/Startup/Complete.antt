-- ===== src/Sync/Startup/Complete.antt =====
-- A table is copied whole from a server that runs this program.
use open_chat_be.Prelude.{
  All, List, List-cases, Map, Option, Option-cases, String, [], ap, arith, drop, false, inl, inr,
  keep, length, length-drop, length-take, map, map-append, nat_eq, none, refl, some, string_eq,
  subst, suc, sym, take, take-drop, true, zero, ℕ, ◌-◌, ◌<◌, ◌∙◌, ◌∷◌, ◌≡◌, ◌≢◌,
}
use open_chat_be.Results.{ok}
use open_chat_be.Text.{TextOrder}
use open_chat_be.Sync.Types.{
  SyncTableName, server_node, server_score_report, server_score_aggregate, user, direct_message,
  SyncRowEnvelope,
}
use open_chat_be.Sync.Apply.Latest.{find_row}
use open_chat_be.Sync.Apply.RoundTrip.{row_here}
use open_chat_be.Sync.Apply.Many.{merged, apply_rows-merged}
use open_chat_be.Json.{Value}
use open_chat_be.Sync.Tables.{
  to_row_envelope, message_row, user_row, aggregate_row, report_row, table_of, node_row, TableRow,
  extract_primary_key, SyncWorld,
}
use open_chat_be.Sync.Database.{Queries, Tables, IsAscending}
use open_chat_be.Sync.Ordered.{IsAscending-keep, IsAscending-take}
use open_chat_be.Sync.Serve.{is_current, next_cursor_of, past}
use open_chat_be.Sync.Serve.Paging.{
  all_rows, page-last, page-next, page-cursor, all_rows-IsAscending,
}
use open_chat_be.Sync.Apply.{apply_rows}
use open_chat_be.Sync.Validators.{SyncValidator}
use open_chat_be.Sync.Startup.{StartupSyncRuntime, WeakRow}
use open_chat_be.Sync.Startup.Loop.{
  sync_table, SyncState, SyncConfig, Ending, finished, sync_page, is_last_cursor,
}
use open_chat_be.Sync.Startup.Turns.{
  IsHonest, IsUndisputed, page_after, env, size, todo, run, apply_rows-split, same_page, run-empty,
  run-last, run-next,
}

module _ {D : Type 0} (order local_compare : TextOrder) (queries : Queries order D)
    (world : SyncWorld) (config : SyncConfig) (runtime : StartupSyncRuntime) (now : ℕ)
    (run_id source : String) (table : SyncTableName) (validators : List SyncValidator) (at : ℕ)
    (there : Tables D) where
  abbrev given : List TableRow
  given = all_rows order queries world at table there

  abbrev left_rows : Option String → List TableRow
  left_rows cursor =
      todo order local_compare queries world config runtime now run_id source table validators at
        there cursor

  abbrev loop : ℕ → Option String → SyncState D → Ending × SyncState D
  loop fuel cursor s =
      run order local_compare queries world config runtime now run_id source table validators at
        there fuel cursor s

  abbrev page : Option String → List TableRow
  page cursor = page_after order local_compare queries world config runtime table at there cursor

  abbrev page_size : ℕ
  page_size = size order local_compare queries world config runtime

  abbrev to_env : TableRow → SyncRowEnvelope Value
  to_env row = env order local_compare queries world config runtime row

  page_size-suc : page_size ≡ suc (page_size - 1)
  page_size-suc = ground arith

  page-whole :
      (cursor : Option String)
      → next_cursor_of order queries world page_size (page cursor) ≡ none
      → page cursor ≡ left_rows cursor
  page-whole cursor h =
      let k = page_size - 1 in
      subst (λ n. take n (left_rows cursor) ≡ left_rows cursor) (sym page_size-suc)
        (page-last order queries world at table there k cursor (
          subst (λ n. next_cursor_of order queries world n (take n (left_rows cursor)) ≡ none)
            page_size-suc h))

  written-nothing :
      (t t' : Tables D) → apply_rows world order queries now [] t ≡ (ok tt, t') → t ≡ t'
  unfolding apply_rows
  written-nothing t t' h = cc h

  nothing_left : (n : ℕ) (rows : List TableRow) → take (suc n) rows ≡ [] → rows ≡ []
  nothing_left n [] h = refl
  nothing_left n (row ∷ rows) h = absurd cc

  -- The rows of a page, and those that it leaves, are written one after another.
  halves :
      (cursor : Option String) (t t' : Tables D)
      → apply_rows world order queries now (map to_env (left_rows cursor)) t ≡ (ok tt, t')
      → (t1 : Tables D) × (apply_rows world order queries now (map to_env (page cursor)) t
          ≡ (ok tt, t1))
        × (apply_rows world order queries now (map to_env (drop page_size (left_rows cursor))) t1
            ≡ (ok tt, t'))
  halves cursor t t' done =
      apply_rows-split order local_compare queries world config runtime now
        (map to_env (page cursor)) (map to_env (drop page_size (left_rows cursor))) t t'
        (ap (λ rows. apply_rows world order queries now rows t)
            (sym (map-append to_env (page cursor) (drop page_size (left_rows cursor)))
              ∙ ap (λ rows. map to_env rows) (take-drop page_size (left_rows cursor)))
          ∙ done)

  IsAscending-page : (cursor : Option String) → IsAscending order extract_primary_key (page cursor)
  IsAscending-page cursor =
      IsAscending-take order extract_primary_key page_size (left_rows cursor) (
        IsAscending-keep order extract_primary_key
          (λ row. past order cursor (extract_primary_key row)) given
          (all_rows-IsAscending order queries world at table there))

  is_last-some :
      (c : String)
      → c ≢ ""
      → is_last_cursor order local_compare queries world config runtime (some c) ≡ false
  is_last-some c h = ground (arith, string_eq.beq_iff c "")

  copied :
      IsHonest order local_compare queries world config runtime source table at there
      → IsUndisputed order local_compare queries world config runtime run_id table validators at
          there
      → All (λ row. extract_primary_key row ≢ "") given
      → (fuel : ℕ) (cursor : Option String) (s : SyncState D) (t' : Tables D)
      → length (left_rows cursor) < fuel
      → apply_rows world order queries now (map to_env (left_rows cursor)) s.tables ≡ (ok tt, t')
      → (queue : Map String WeakRow) × (loop fuel cursor s
          ≡ (finished, record { tables = t'; weak_consensus_queue = queue }))
  copied honest undisputed named zero cursor s t' enough done = absurd (omega arith)
  copied honest undisputed named (suc fuel) cursor s t' enough done =
      let (t1, before, after) = halves cursor s.tables t' done in
      let (queue, written) =
        same_page order local_compare queries world config runtime now run_id table validators
          (page cursor) s t1 (IsAscending-page cursor) (undisputed cursor) before in
      let s1 : SyncState D = record { tables = t1; weak_consensus_queue = queue } in
      elim (List-cases (page cursor)) [
        | inl empty ↦
            let none_left =
              nothing_left (page_size - 1) (left_rows cursor)
                (subst (λ n. take n (left_rows cursor) ≡ []) page_size-suc empty) in
            let same = written-nothing s.tables t' (
              ap (λ rows. apply_rows world order queries now (map to_env rows) s.tables)
                (sym none_left)
              ∙ done) in
            (
              s.weak_consensus_queue,
              run-empty order local_compare queries world config runtime now run_id source table
                    validators at there honest fuel cursor s empty
                  ∙ cc same,
            )
        | inr (row, rows, items) ↦
            let written' =
              subst
                (λ xs.
                  sync_page order local_compare queries world config runtime now run_id table
                    validators (map to_env xs) s
                  ≡ (ok tt, s1))
                items written in
            elim (Option-cases (next_cursor_of order queries world page_size (page cursor))) [
              | inl ended ↦
                  let whole = page-whole cursor ended in
                  let all_done =
                    ap (λ xs. apply_rows world order queries now (map to_env xs) s.tables) whole
                    ∙ done in
                  (
                    queue,
                    run-last order local_compare queries world config runtime now run_id source
                          table validators at there honest fuel cursor s s1 row rows items written'
                          (cc ended)
                        ∙ cc (before, all_done),
                  )
              | inr (c, goes_on) ↦
                  let given_c =
                    page-cursor order queries world at table there page_size cursor c named
                      goes_on in
                  let left_c : left_rows (some c) ≡ drop page_size (left_rows cursor) =
                    page-next order queries world at table there page_size cursor c named goes_on in
                  let fewer : length (left_rows (some c)) < fuel = omega (
                    arith,
                    ap (λ xs. length xs) left_c,
                    length-drop page_size (left_rows cursor),
                    page_size-suc,
                    length-take page_size (left_rows cursor),
                    ap (λ xs. length xs) items,
                    enough,
                  ) in
                  let (queue', later) = copied honest undisputed named fuel (some c) s1 t' fewer (
                    ap (λ xs. apply_rows world order queries now (map to_env xs) t1) left_c
                    ∙ after) in
                  (
                    queue',
                    run-next order local_compare queries world config runtime now run_id source
                          table validators at there honest fuel cursor s s1 row rows items written'
                          (ap
                              (λ o.
                                is_last_cursor order local_compare queries world config runtime o)
                              goes_on
                            ∙ is_last-some c given_c)
                        ∙ ap (λ o. loop fuel o s1) goes_on
                        ∙ later,
                  )
            ]
      ]

  abbrev OfTable : SyncTableName → TableRow → Type 0
  OfTable name row = table_of row ≡ name

  of_table :
      {R : Type 0} (to_row : R → TableRow) (name : SyncTableName) (rs : List R)
      → ((r : R) → table_of (to_row r) ≡ name)
      → All (OfTable name) (map to_row rs)
  of_table to_row name [] h = tt
  of_table to_row name (r ∷ rs) h = (h r, of_table to_row name rs h)

  given-OfTable :
      (name : SyncTableName) → All (OfTable name) (all_rows order queries world at name there)
  given-OfTable server_node =
      of_table node_row server_node (keep (λ r. true) (queries.server_nodes.rows there.nodes))
        (λ r. refl)
  given-OfTable server_score_report =
      of_table report_row server_score_report
        (keep (λ r. true) (queries.score_reports.rows there.reports)) (λ r. refl)
  given-OfTable server_score_aggregate =
      of_table aggregate_row server_score_aggregate
        (keep (λ r. true) (queries.score_aggregates.rows there.aggregates)) (λ r. refl)
  given-OfTable user =
      of_table user_row user (keep (λ r. true) (queries.users.rows there.people)) (λ r. refl)
  given-OfTable direct_message =
      of_table message_row direct_message
        (keep (is_current at) (queries.direct_messages.rows there.messages)) (λ r. refl)

  all_true : (rows : List TableRow) → keep (λ row. true) rows ≡ rows
  all_true [] = refl
  all_true (row ∷ rows) = ap (λ rs. row ∷ rs) (all_true rows)

  -- If the source answers as this program does, no page of it is disputed, no key is "", and its rows
  -- can be written here, since none has a unique column of another row, then
  -- the loop over a table ends, with one turn for each row at most and one more. Every row that the
  -- source gives away is then here, as it was sent or as the newer one that was here before, and
  -- the rows under other keys are as they were.
  pub sync_table_complete :
      IsHonest order local_compare queries world config runtime source table at there
      → IsUndisputed order local_compare queries world config runtime run_id table validators at
          there
      → All (λ row. extract_primary_key row ≢ "") (all_rows order queries world at table there)
      → (fuel : ℕ) (s : SyncState D) → length (all_rows order queries world at table there) < fuel
      → (apply_rows world order queries now
          (map (to_row_envelope world) (all_rows order queries world at table there))
          s.tables).0
        ≡ ok tt
      → (s' : SyncState D) × (sync_table order local_compare queries world config runtime fuel now
            run_id source table validators none s
          ≡ (finished, s'))
        × All
            (λ row.
              row_here order queries world row s'.tables
              ≡ merged order queries world now s.tables row)
            (all_rows order queries world at table there)
        × ((key : String)
            → All
                (λ row. extract_primary_key row ≢ key)
                (all_rows order queries world at table there)
            → find_row order queries table key s'.tables
              ≡ find_row order queries table key s.tables)
  sync_table_complete honest undisputed named fuel s enough writable =
      let (t', done, here, others) =
        apply_rows-merged order queries world now table given s.tables (given-OfTable table)
          (all_rows-IsAscending order queries world at table there) writable in
      let whole : left_rows none ≡ given = all_true given in
      let (queue, ends) =
        copied honest undisputed named fuel none s t'
          (omega (arith, enough, ap (λ xs. length xs) whole))
          (ap (λ xs. apply_rows world order queries now (map to_env xs) s.tables) whole ∙ done) in
      (record { tables = t'; weak_consensus_queue = queue }, ends, here, others)
