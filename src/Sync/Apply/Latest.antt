-- ===== src/Sync/Apply/Latest.antt =====
-- Whose row stays when two servers have one.
use open_chat_be.Prelude.{
  Bool, Bool-cases, Option, String, ap, arith, false, if◌then◌else◌, inl, inr, nat_eq, none, not,
  refl, some, string_eq, true, ℕ, ◌&&◌, ◌==◌, ◌≡◌, ◌≢◌, ◌⊎◌,
}
use mathlib.Core.Option
use open_chat_be.Results.{Result, ok, err}
use open_chat_be.Text.{TextOrder}
use open_chat_be.Json.{Value}
use open_chat_be.Sync.Types.{
  SyncTableName, server_node, server_score_report, server_score_aggregate, user, direct_message,
  SyncRowEnvelope,
}
use open_chat_be.Sync.Tables.{
  TableRow, node_row, report_row, aggregate_row, user_row, message_row, changed_at, SyncWorld,
}
use open_chat_be.Sync.Database.{is_taken, unique_failure, RowTable, Queries, Tables}
use open_chat_be.Sync.Apply.{
  is_taken, put, is_newer, date_under, into, apply_row, apply_single_row, server_node_of,
  score_report_of, score_aggregate_of, synced_user, direct_message_of,
}

module _ {D : Type 0} (order : TextOrder) (queries : Queries order D) where
  -- The row of a table under a key.
  abbrev pub find_row : SyncTableName → String → Tables D → Option TableRow
  find_row server_node key t = Option.map node_row (queries.server_nodes.find_unique key t.nodes)
  find_row server_score_report key t =
      Option.map report_row (queries.score_reports.find_unique key t.reports)
  find_row server_score_aggregate key t =
      Option.map aggregate_row (queries.score_aggregates.find_unique key t.aggregates)
  find_row user key t = Option.map user_row (queries.users.find_unique key t.people)
  find_row direct_message key t =
      Option.map message_row (queries.direct_messages.find_unique key t.messages)

  abbrev pub row_is_newer : SyncWorld → Option TableRow → SyncRowEnvelope Value → Bool
  row_is_newer world found row = is_newer world (Option.map changed_at found) row.updated_at

  -- The tables but for one are the same.
  abbrev pub SameElsewhere : SyncTableName → Tables D → Tables D → Type 0
  SameElsewhere server_node t u =
      (u.reports ≡ t.reports)
      × (u.aggregates ≡ t.aggregates)
      × (u.people ≡ t.people)
      × (u.messages ≡ t.messages)
  SameElsewhere server_score_report t u =
      (u.nodes ≡ t.nodes)
      × (u.aggregates ≡ t.aggregates)
      × (u.people ≡ t.people)
      × (u.messages ≡ t.messages)
  SameElsewhere server_score_aggregate t u =
      (u.nodes ≡ t.nodes)
      × (u.reports ≡ t.reports)
      × (u.people ≡ t.people)
      × (u.messages ≡ t.messages)
  SameElsewhere user t u =
      (u.nodes ≡ t.nodes)
      × (u.reports ≡ t.reports)
      × (u.aggregates ≡ t.aggregates)
      × (u.messages ≡ t.messages)
  SameElsewhere direct_message t u =
      (u.nodes ≡ t.nodes)
      × (u.reports ≡ t.reports)
      × (u.aggregates ≡ t.aggregates)
      × (u.people ≡ t.people)

  module _ (world : SyncWorld) where
    date-map :
        {R : Type 0} (to_row : R → TableRow) (o : Option R)
        → date_under world to_row o ≡ Option.map changed_at (Option.map to_row o)
    date-map to_row none = refl
    date-map to_row (some r) = refl

    -- A row that can be read, by whether the row that is there is newer and by the unique columns.
    pub put-found :
        {R : Type 0} (to_row : R → TableRow) (rows : RowTable order D R to_row)
        (row : SyncRowEnvelope Value) (fresh : Result (Option R → R)) (f : Option R → R) (d : D)
        → fresh ≡ ok f
        → ((row_is_newer world (Option.map to_row (rows.find_unique row.primary_key d)) row ≡ false)
            × (is_taken to_row row.primary_key
                  (f (rows.find_unique row.primary_key d))
                  (rows.rows d)
                ≡ true)
            × (put world order queries to_row rows row fresh d ≡ err unique_failure))
          ⊎ ((d' : D) × (put world order queries to_row rows row fresh d ≡ ok d')
              × ((other : String)
                  → Option.map to_row (rows.find_unique other d') ≡ (
                      if not (
                          row_is_newer world
                            (Option.map to_row (rows.find_unique row.primary_key d))
                            row)
                        && row.primary_key == other
                      then some (to_row (f (rows.find_unique row.primary_key d)))
                      else Option.map to_row (rows.find_unique other d))))
    unfolding put
    put-found to_row rows row fresh f d given =
        let old = rows.find_unique row.primary_key d in
        elim (Bool-cases (row_is_newer world (Option.map to_row old) row)) [
          | inl newer ↦
              inr (d, ground (arith, newer, date-map to_row old), λ other. ground (arith, newer))
          | inr not_newer ↦
              elim (Bool-cases (is_taken to_row row.primary_key (f old) (rows.rows d))) [
                | inl taken ↦
                    inl (
                      not_newer,
                      taken,
                      ground (arith, not_newer, given, taken, date-map to_row old),
                    )
                | inr free ↦ inr (
                  rows.upsert row.primary_key f d,
                  ground (arith, not_newer, given, free, date-map to_row old),
                  λ other.
                      ground (arith, not_newer, rows.find-upsert row.primary_key other f d free),
                )
              ]
        ]

    put-kept :
        {R : Type 0} (to_row : R → TableRow) (rows : RowTable order D R to_row)
        (row : SyncRowEnvelope Value) (fresh : Result (Option R → R)) (d d' : D)
        → put world order queries to_row rows row fresh d ≡ ok d'
        → (row_is_newer world (Option.map to_row (rows.find_unique row.primary_key d)) row ≡ true
            → d' ≡ d)
          × ((other : String)
              → row.primary_key ≢ other
              → Option.map to_row (rows.find_unique other d')
                ≡ Option.map to_row (rows.find_unique other d))
    unfolding put
    put-kept to_row rows row (err e) d d' done = (
      ground (arith, date-map to_row (rows.find_unique row.primary_key d)),
      λ other apart. ground (arith, date-map to_row (rows.find_unique row.primary_key d)),
    )
    put-kept to_row rows row (ok f) d d' done = (
      ground (arith, date-map to_row (rows.find_unique row.primary_key d)),
      λ other apart. ground (
        arith,
        string_eq.beq_iff row.primary_key other,
        rows.find-upsert row.primary_key other f d,
      ),
    )

    IsKept : SyncTableName → SyncRowEnvelope Value → Tables D → Tables D → Type 0
    IsKept table row t t' =
        (row_is_newer world (find_row table row.primary_key t) row ≡ true → t' ≡ t)
        × ((other : String)
            → row.primary_key ≢ other
            → find_row table other t' ≡ find_row table other t)
        × SameElsewhere table t t'

    into-eq-ok :
        {A : Type 0} (m : Result D) (f : D → A) (a : A)
        → into world order queries m f ≡ ok a
        → (d : D) × (m ≡ ok d) × (f d ≡ a)
    into-eq-ok (err e) f a h = absurd cc
    into-eq-ok (ok d) f a h = (d, refl, cc h)

    apply_row-IsKept :
        (now : ℕ) (table : SyncTableName) (row : SyncRowEnvelope Value) (t t' : Tables D)
        → apply_row world order queries now table row t ≡ ok t'
        → IsKept table row t t'
    unfolding apply_row IsKept
    apply_row-IsKept now server_node row t t' h =
        let (d, done, e) = into-eq-ok _ _ t' h in
        let (newer, other) =
          put-kept node_row queries.server_nodes row
            (server_node_of world now row.primary_key row.payload) t.nodes d done in
        rw⁻¹ e (λ n. ap (λ d'. record t { nodes = d' }) (newer n), other, (refl, refl, refl, refl))
    apply_row-IsKept now server_score_report row t t' h =
        let (d, done, e) = into-eq-ok _ _ t' h in
        let (newer, other) =
          put-kept report_row queries.score_reports row
            (score_report_of world now row.primary_key row.payload) t.reports d done in
        rw⁻¹ e
          (λ n. ap (λ d'. record t { reports = d' }) (newer n), other, (refl, refl, refl, refl))
    apply_row-IsKept now server_score_aggregate row t t' h =
        let (d, done, e) = into-eq-ok _ _ t' h in
        let (newer, other) =
          put-kept aggregate_row queries.score_aggregates row
            (score_aggregate_of world row.primary_key row.payload) t.aggregates d done in
        rw⁻¹ e
          (λ n. ap (λ d'. record t { aggregates = d' }) (newer n), other, (refl, refl, refl, refl))
    apply_row-IsKept now user row t t' h =
        let (d, done, e) = into-eq-ok _ _ t' h in
        let (newer, other) =
          put-kept user_row queries.users row
            (ok (synced_user world now row.primary_key row.payload)) t.people d done in
        rw⁻¹ e (λ n. ap (λ d'. record t { people = d' }) (newer n), other, (refl, refl, refl, refl))
    apply_row-IsKept now direct_message row t t' h =
        let (d, done, e) = into-eq-ok _ _ t' h in
        let (newer, other) =
          put-kept message_row queries.direct_messages row
            (direct_message_of world now row.primary_key row.payload) t.messages d done in
        rw⁻¹ e
          (λ n. ap (λ d'. record t { messages = d' }) (newer n), other, (refl, refl, refl, refl))

    -- Writing a row changes no other row, and not even that one if it is newer than what comes.
    pub apply_single_row-kept :
        (now : ℕ) (row : SyncRowEnvelope Value) (t t' : Tables D)
        → apply_single_row world order queries now row t ≡ ok t'
        → (row_is_newer world (find_row row.table row.primary_key t) row ≡ true → t' ≡ t)
          × ((other : String)
              → row.primary_key ≢ other
              → find_row row.table other t' ≡ find_row row.table other t)
          × SameElsewhere row.table t t'
    unfolding apply_single_row IsKept
    apply_single_row-kept now row t t' h = apply_row-IsKept now row.table row t t' h
