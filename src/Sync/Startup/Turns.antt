-- ===== src/Sync/Startup/Turns.antt =====
-- One turn of the loop over the pages of a table, if the source runs this program.
use open_chat_be.Prelude.{
  All, List, Map, Option, String, [], false, inl, inr, map, nat_eq, refl, some, string_eq, suc,
  take, true, ℕ, ◌++◌, ◌∙◌, ◌∷◌, ◌≡◌,
}
use open_chat_be.Results.{ok, Result-cases}
use open_chat_be.Text.{TextOrder}
use open_chat_be.Json.{Value}
use open_chat_be.Sync.Types.{
  SyncTableName, server_node, server_score_report, server_score_aggregate, user, direct_message,
  SyncRowEnvelope,
}
use open_chat_be.Sync.Tables.{TableRow, extract_primary_key, SyncWorld, to_row_envelope}
use open_chat_be.Sync.Database.{Queries, Tables, IsAscending}
use open_chat_be.Sync.Serve.{
  SyncFetchRequest, SyncFetchResponse, handle_fetch_request, fetch_limit, next_cursor_of,
}
use open_chat_be.Sync.Serve.Paging.{all_rows, left, fetch_table_rows_lem}
use open_chat_be.Sync.Apply.{apply_rows, apply_single_row}
use open_chat_be.Sync.Validators.{SyncValidator}
use open_chat_be.Sync.Startup.{
  StartupSyncRuntime, fetch_response, same_table, as_fetched, WeakRow, collect_votes, source_map,
}
use open_chat_be.Sync.Startup.Loop.{
  SyncState, SyncConfig, Ending, finished, sync_page, resolve_page, sync_table, after_page,
  is_last_cursor,
}
use open_chat_be.Sync.Startup.Agreed.{IsAgreed, lookup-source_map, resolve_rows-agreed}

same_table_refl : (table : SyncTableName) → same_table table table ≡ true
same_table_refl server_node = refl
same_table_refl server_score_report = refl
same_table_refl server_score_aggregate = refl
same_table_refl user = refl
same_table_refl direct_message = refl

module _ {D : Type 0} (order local_compare : TextOrder) (queries : Queries order D)
    (world : SyncWorld) (config : SyncConfig) (runtime : StartupSyncRuntime) where
  -- Writing in two steps.
  pub apply_rows-split :
      (now : ℕ) (xs ys : List (SyncRowEnvelope Value)) (t t' : Tables D)
      → apply_rows world order queries now (xs ++ ys) t ≡ (ok tt, t')
      → (t1 : Tables D) × (apply_rows world order queries now xs t ≡ (ok tt, t1))
        × (apply_rows world order queries now ys t1 ≡ (ok tt, t'))
  unfolding apply_rows
  apply_rows-split now [] ys t t' h = (t, refl, h)
  apply_rows-split now (x ∷ xs) ys t t' h =
      elim (Result-cases (apply_single_row world order queries now x t)) [
        | inr (e, failed) ↦ absurd (cc (failed, h))
        | inl (t2, done) ↦
            let (t1, before, after) = apply_rows-split now xs ys t2 t' (cc (done, h)) in
            (t1, cc (done, before), after)
      ]

  -- The source answers as this program does, with the tables `there` and its clock at `at`.
  abbrev pub IsHonest : String → SyncTableName → ℕ → Tables D → Type 0
  IsHonest source table at there =
      (request : SyncFetchRequest)
      → request.table ≡ table
      → runtime.ask_fetch source request
        ≡ some (fetch_response (handle_fetch_request order queries world at request there))

  abbrev pub env : TableRow → SyncRowEnvelope Value
  env row = to_row_envelope world row

  abbrev pub size : ℕ
  size = fetch_limit order queries world config.sync_batch_size

  -- The rows that the source answers with after a cursor.
  abbrev pub page_after : SyncTableName → ℕ → Tables D → Option String → List TableRow
  page_after table at there cursor =
      take size (left order queries world cursor (all_rows order queries world at table there))

  -- No page of the source is disputed.
  abbrev pub IsUndisputed : String → SyncTableName → List SyncValidator → ℕ → Tables D → Type 0
  IsUndisputed run_id table validators at there =
      (cursor : Option String)
      → let items = map env (page_after table at there cursor) in
        All (λ row. IsAgreed order (collect_votes runtime run_id table items validators) (env row))
          (page_after table at there cursor)

  pub same_page :
      (now : ℕ) (run_id : String) (table : SyncTableName) (validators : List SyncValidator)
      (rows : List TableRow) (s : SyncState D) (t1 : Tables D)
      → IsAscending order extract_primary_key rows
      → All
          (λ row.
            IsAgreed order (collect_votes runtime run_id table (map env rows) validators) (env row))
          rows
      → apply_rows world order queries now (map env rows) s.tables ≡ (ok tt, t1)
      → (queue : Map String WeakRow) × (sync_page order local_compare queries world config runtime
            now run_id table validators
            (map env rows)
            s
          ≡ (ok tt, record { tables = t1; weak_consensus_queue = queue }))
  unfolding sync_page resolve_page
  same_page now run_id table validators rows s t1 ascending agreed done =
      let votes = collect_votes runtime run_id table (map env rows) validators in
      let same =
        resolve_rows-agreed order world runtime now run_id table validators votes rows
          (source_map runtime (map env rows) []) s.weak_consensus_queue
          (lookup-source_map order world runtime rows [] ascending) agreed in
      (
        (resolve_page order local_compare queries world config runtime now run_id table validators
            (map env rows) s.weak_consensus_queue).1,
        cc (same, done),
      )

  module _ (now : ℕ) (run_id source : String) (table : SyncTableName)
      (validators : List SyncValidator) (at : ℕ) (there : Tables D) where
    abbrev pub given : List TableRow
    given = all_rows order queries world at table there

    abbrev pub todo : Option String → List TableRow
    todo cursor = left order queries world cursor given

    abbrev pub run : ℕ → Option String → SyncState D → Ending × SyncState D
    run fuel cursor s =
        sync_table order local_compare queries world config runtime fuel now run_id source table
          validators cursor s

    abbrev pub answer_to : Option String → SyncFetchResponse
    answer_to cursor = record {
      items = map env (page_after table at there cursor);
      next_cursor = next_cursor_of order queries world size (page_after table at there cursor);
      run_id = run_id;
      table = table;
    }

    fetched :
        IsHonest source table at there
        → (cursor : Option String)
        → as_fetched table (
            runtime.ask_fetch source (record {
              cursor = cursor;
              limit = config.sync_batch_size;
              run_id = run_id;
              table = table;
            }))
          ≡ some (answer_to cursor)
    unfolding handle_fetch_request
    fetched honest cursor =
        let request : SyncFetchRequest = record {
          cursor = cursor;
          limit = config.sync_batch_size;
          run_id = run_id;
          table = table;
        } in
        cc (
          honest request refl,
          same_table_refl table,
          fetch_table_rows_lem order queries world at table cursor size there,
        )

    -- One turn of the loop.
    pub run-empty :
        IsHonest source table at there
        → (fuel : ℕ) (cursor : Option String) (s : SyncState D)
        → page_after table at there cursor ≡ []
        → run (suc fuel) cursor s ≡ (finished, s)
    unfolding sync_table
    run-empty honest fuel cursor s empty = cc (fetched honest cursor, empty)

    run-turn :
        IsHonest source table at there
        → (fuel : ℕ) (cursor : Option String) (s : SyncState D) (row : TableRow)
          (rows : List TableRow)
        → page_after table at there cursor ≡ row ∷ rows
        → run (suc fuel) cursor s
          ≡ after_page order local_compare queries world config runtime
              (answer_to cursor).next_cursor
              (sync_page order local_compare queries world config runtime now run_id table
                validators
                (map env (row ∷ rows))
                s)
              (run fuel (answer_to cursor).next_cursor)
    unfolding sync_table
    run-turn honest fuel cursor s row rows items = cc (fetched honest cursor, items)

    pub run-last :
        IsHonest source table at there
        → (fuel : ℕ) (cursor : Option String) (s s' : SyncState D) (row : TableRow)
          (rows : List TableRow)
        → page_after table at there cursor ≡ row ∷ rows
        → sync_page order local_compare queries world config runtime now run_id table validators
            (map env (row ∷ rows))
            s
          ≡ (ok tt, s')
        → is_last_cursor order local_compare queries world config runtime
            (answer_to cursor).next_cursor
          ≡ true
        → run (suc fuel) cursor s ≡ (finished, s')
    run-last honest fuel cursor s s' row rows items done last =
        run-turn honest fuel cursor s row rows items ∙ cc (done, last)

    pub run-next :
        IsHonest source table at there
        → (fuel : ℕ) (cursor : Option String) (s s' : SyncState D) (row : TableRow)
          (rows : List TableRow)
        → page_after table at there cursor ≡ row ∷ rows
        → sync_page order local_compare queries world config runtime now run_id table validators
            (map env (row ∷ rows))
            s
          ≡ (ok tt, s')
        → is_last_cursor order local_compare queries world config runtime
            (answer_to cursor).next_cursor
          ≡ false
        → run (suc fuel) cursor s ≡ run fuel (answer_to cursor).next_cursor s'
    run-next honest fuel cursor s s' row rows items done more =
        run-turn honest fuel cursor s row rows items ∙ cc (done, more)
