-- ===== src/Sync/Apply/Many.antt =====
-- Writing many rows of a table of another server.
use open_chat_be.Prelude.{
  All, All-imp, List, Option, String, [], ap, arith, if◌then◌else◌, inl, inr, map, nat_eq, none,
  refl, some, string_eq, subst, sym, true, ℕ, ◌∙◌, ◌∷◌, ◌≡◌, ◌≢◌,
}
use mathlib.Core.Option
use open_chat_be.Results.{ok, Result-cases}
use open_chat_be.Text.{TextOrder}
use open_chat_be.Sync.Types.{SyncTableName}
use open_chat_be.Sync.Tables.{
  ServerNode, ServerScoreReport, User, StoredMessage, TableRow, node_row, report_row, aggregate_row,
  user_row, message_row, table_of, extract_primary_key, SyncWorld, to_row_envelope,
}
use open_chat_be.Sync.Database.{Queries, Tables, is_after, IsAscending}
use open_chat_be.Sync.Ordered.{is_after_irrefl}
use open_chat_be.Sync.Apply.{apply_single_row, apply_rows}
use open_chat_be.Sync.Apply.Latest.{find_row, apply_single_row-kept}
use open_chat_be.Sync.Apply.RoundTrip.{
  received, row_here, is_older, apply_single_row-to_row_envelope, ok-injective,
}

abbrev as_node : TableRow → Option ServerNode
as_node (node_row r) = some r
as_node row = none

abbrev as_report : TableRow → Option ServerScoreReport
as_report (report_row r) = some r
as_report row = none

abbrev as_user : TableRow → Option User
as_user (user_row r) = some r
as_user row = none

abbrev as_message : TableRow → Option StoredMessage
as_message (message_row r) = some r
as_message row = none

bind-map :
    {R : Type 0} (to_row : R → TableRow) (of : TableRow → Option R)
    → ((r : R) → of (to_row r) ≡ some r)
    → (o : Option R) → Option.bind (Option.map to_row o) of ≡ o
unfolding Option.bind
bind-map to_row of law none = refl
bind-map to_row of law (some r) = law r

map-cancel :
    {R : Type 0} (to_row : R → TableRow) (of : TableRow → Option R)
    → ((r : R) → of (to_row r) ≡ some r)
    → (a b : Option R) → Option.map to_row a ≡ Option.map to_row b
    → a ≡ b
map-cancel to_row of law a b h =
    sym (bind-map to_row of law a) ∙ ap (λ o. Option.bind o of) h ∙ bind-map to_row of law b

module _ {D : Type 0} (order : TextOrder) (queries : Queries order D) (world : SyncWorld) where
  -- What is received depends on the row that is here.
  received-same :
      (now : ℕ) (row : TableRow) (t u : Tables D)
      → row_here order queries world row t ≡ row_here order queries world row u
      → received order queries world now t row ≡ received order queries world now u row
  received-same now (node_row r) t u h = cc (
      map-cancel node_row as_node (λ x. refl) (queries.server_nodes.find_unique r.peer_id t.nodes)
        (queries.server_nodes.find_unique r.peer_id u.nodes) h)
  received-same now (report_row r) t u h = cc (
      map-cancel report_row as_report (λ x. refl) (queries.score_reports.find_unique r.id t.reports)
        (queries.score_reports.find_unique r.id u.reports) h)
  received-same now (aggregate_row r) t u h = refl
  received-same now (user_row r) t u h = cc (
      map-cancel user_row as_user (λ x. refl) (queries.users.find_unique r.public_key t.people)
        (queries.users.find_unique r.public_key u.people) h)
  received-same now (message_row r) t u h = cc (
      map-cancel message_row as_message (λ x. refl)
        (queries.direct_messages.find_unique r.message.id t.messages)
        (queries.direct_messages.find_unique r.message.id u.messages) h)

  -- What there is of a row once it was sent to a server with the tables `t`.
  abbrev pub merged : ℕ → Tables D → TableRow → Option TableRow
  merged now t row =
      if is_older order queries world row (row_here order queries world row t)
      then row_here order queries world row t
      else some (received order queries world now t row)

  merged-same :
      (now : ℕ) (row : TableRow) (t u : Tables D)
      → row_here order queries world row t ≡ row_here order queries world row u
      → merged now t row ≡ merged now u row
  merged-same now row t u h = cc (h, received-same now row t u h)

  abbrev HasTable : SyncTableName → TableRow → Type 0
  HasTable table row = table_of row ≡ table

  abbrev IsApart : String → TableRow → Type 0
  IsApart key row = extract_primary_key row ≢ key

  IsApart-later :
      (key : String) (rows : List TableRow)
      → All (λ later. is_after order key (extract_primary_key later) ≡ true) rows
      → All (IsApart key) rows
  IsApart-later key rows h =
      All-imp (λ later. is_after order key (extract_primary_key later) ≡ true) (IsApart key) rows
        (λ row after same.
          ground
            (arith, is_after_irrefl order key, subst (λ k. is_after order key k ≡ true) same after))
        h

  -- Rows under other keys than the one that was written are merged with what was there before.
  All-merged :
      (now : ℕ) (table : SyncTableName) (key : String) (rows : List TableRow) (t t1 t' : Tables D)
      → ((other : String)
          → key ≢ other
          → find_row order queries table other t1 ≡ find_row order queries table other t)
      → All (HasTable table) rows
      → All (IsApart key) rows
      → All (λ row. row_here order queries world row t' ≡ merged now t1 row) rows
      → All (λ row. row_here order queries world row t' ≡ merged now t row) rows
  All-merged now table key [] t t1 t' kept tables apart h = tt
  All-merged now table key (row ∷ rows) t t1 t' kept (this_table, tables) (this_apart, apart)
        (this, h) =
      let same : row_here order queries world row t1 ≡ row_here order queries world row t =
        rw this_table (kept (extract_primary_key row) (λ e. this_apart (sym e))) in
      (
        this ∙ merged-same now row t1 t same,
        All-merged now table key rows t t1 t' kept tables apart h,
      )

  kept_by :
      (now : ℕ) (table : SyncTableName) (row : TableRow) (t t1 : Tables D)
      → table_of row ≡ table
      → apply_single_row world order queries now (to_row_envelope world row) t ≡ ok t1
      → (other : String) → extract_primary_key row ≢ other
      → find_row order queries table other t1 ≡ find_row order queries table other t
  unfolding to_row_envelope
  kept_by now table row t t1 this_table done other apart = rw⁻¹ this_table (
      (apply_single_row-kept order queries world now (to_row_envelope world row) t t1 done).1 other
        apart)

  -- A row that was written is merged with what was here.
  written_row :
      (now : ℕ) (row : TableRow) (t t1 : Tables D)
      → apply_single_row world order queries now (to_row_envelope world row) t ≡ ok t1
      → row_here order queries world row t1 ≡ merged now t row
  written_row now row t t1 done =
      elim (apply_single_row-to_row_envelope order queries world now row t) [
        | inl (old, blocked, thrown) ↦ absurd (cc (done, thrown))
        | inr (t2, done', here) ↦
            subst (λ u. row_here order queries world row u ≡ merged now t row)
              (ok-injective order queries world t2 t1 (sym done' ∙ done)) here
      ]

  -- Rows are written one after another, the first one first.
  apply_rows-cons :
      (now : ℕ) (row : TableRow) (rows : List TableRow) (t : Tables D)
      → (apply_rows world order queries now (map (to_row_envelope world) (row ∷ rows)) t).0 ≡ ok tt
      → (t1 : Tables D) × (apply_single_row world order queries now (to_row_envelope world row) t
          ≡ ok t1)
        × (apply_rows world order queries now (map (to_row_envelope world) (row ∷ rows)) t
            ≡ apply_rows world order queries now (map (to_row_envelope world) rows) t1)
  unfolding apply_rows
  apply_rows-cons now row rows t written =
      elim (Result-cases (apply_single_row world order queries now (to_row_envelope world row) t)) [
        | inl (t1, done) ↦ (t1, done, cc done)
        | inr (e, thrown) ↦ absurd (cc (thrown, written))
      ]

  -- If rows of one table under different keys could all be written, then each is merged with what was
  -- there before, and the rows under other keys are as they were.
  pub apply_rows-merged :
      (now : ℕ) (table : SyncTableName) (rows : List TableRow) (t : Tables D)
      → All (HasTable table) rows
      → IsAscending order extract_primary_key rows
      → (apply_rows world order queries now (map (to_row_envelope world) rows) t).0 ≡ ok tt
      → (t' : Tables D) × (apply_rows world order queries now (map (to_row_envelope world) rows) t
          ≡ (ok tt, t'))
        × All (λ row. row_here order queries world row t' ≡ merged now t row) rows
        × ((key : String)
            → All (IsApart key) rows
            → find_row order queries table key t' ≡ find_row order queries table key t)
  apply_rows-merged now table [] t tables ascending written =
      (t, unfold apply_rows in refl, tt, λ key apart. refl)
  apply_rows-merged now table (row ∷ rows) t (this_table, tables) (first, ascending) written =
      let (t1, done, goes_on) = apply_rows-cons now row rows t written in
      let here = written_row now row t t1 done in
      let kept = kept_by now table row t t1 this_table done in
      let (t', all_done, all_here, others) =
        apply_rows-merged now table rows t1 tables ascending
          (sym (ap (λ x. x.0) goes_on) ∙ written) in
      let apart = IsApart-later (extract_primary_key row) rows first in
      let stays : row_here order queries world row t' ≡ row_here order queries world row t1 =
        rw this_table (others (extract_primary_key row) apart) in
      (
        t',
        goes_on ∙ all_done,
        (
          stays ∙ here,
          All-merged now table (extract_primary_key row) rows t t1 t' kept tables apart all_here,
        ),
        λ key away. others key away.1 ∙ kept key away.0,
      )
