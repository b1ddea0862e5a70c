-- ===== src/Sync/Apply/RoundTrip.antt =====
-- A row that one server sends and another writes: its content arrives, the date of its last change
-- does not.
use open_chat_be.Prelude.{
  Bool, Option, ap, arith, beq_refl, false, if◌then◌else◌, inl, inr, ltb, nat_eq, none, refl, some,
  string_eq, sym, true, ℕ, ◌∙◌, ◌≡◌, ◌⊎◌,
}
use mathlib.Core.Option
use open_chat_be.Results.{ok, err}
use open_chat_be.Text.{TextOrder}
use open_chat_be.Sync.Tables.{
  TableRow, node_row, report_row, aggregate_row, user_row, message_row, changed_at, table_of,
  extract_primary_key, SyncWorld, to_payload, to_row_envelope,
}
use open_chat_be.Sync.Database.{Queries, Tables, is_taken, unique_failure}
use open_chat_be.Sync.Apply.{
  apply_row, apply_single_row, server_node_of, score_report_of, score_aggregate_of, synced_user,
  direct_message_of,
}
use open_chat_be.Sync.Apply.Latest.{find_row, put-found, row_is_newer}
use open_chat_be.Sync.Apply.Received.{
  received_node, received_report, received_user, received_message, node-sent, node-received,
  report-sent, report-received, aggregate-sent, aggregate-received, user-received, message-sent,
  message-received,
}

module _ {D : Type 0} (order : TextOrder) (queries : Queries order D) (world : SyncWorld) where
  -- What the server that has the tables `t` makes of a row.
  abbrev pub received : ℕ → Tables D → TableRow → TableRow
  received now t (node_row r) =
      node_row (received_node now (queries.server_nodes.find_unique r.peer_id t.nodes) r)
  received now t (report_row r) =
      report_row (received_report now (queries.score_reports.find_unique r.id t.reports) r)
  received now t (aggregate_row r) = aggregate_row r
  received now t (user_row r) =
      user_row (received_user now (queries.users.find_unique r.public_key t.people) r)
  received now t (message_row r) =
      message_row
        (received_message now (queries.direct_messages.find_unique r.message.id t.messages) r)

  abbrev pub is_older : TableRow → Option TableRow → Bool
  is_older row none = false
  is_older row (some there) = ltb (changed_at row) (changed_at there)

  -- The row of the same table under the same key.
  abbrev pub row_here : TableRow → Tables D → Option TableRow
  row_here row t = find_row order queries (table_of row) (extract_primary_key row) t

  is_newer-envelope :
      (row : TableRow) (found : Option TableRow)
      → row_is_newer order queries world found (to_row_envelope world row) ≡ is_older row found
  unfolding to_row_envelope
  is_newer-envelope row none = refl
  is_newer-envelope row (some there) =
      ground (arith, world.parse_date-to_iso_string (changed_at row))

  -- Whether another row here has a unique column of the row.
  abbrev pub is_blocked : ℕ → Tables D → TableRow → Bool
  is_blocked now t (node_row r) =
      is_taken node_row r.peer_id
        (received_node now (queries.server_nodes.find_unique r.peer_id t.nodes) r)
        (queries.server_nodes.rows t.nodes)
  is_blocked now t (report_row r) =
      is_taken report_row r.id
        (received_report now (queries.score_reports.find_unique r.id t.reports) r)
        (queries.score_reports.rows t.reports)
  is_blocked now t (aggregate_row r) =
      is_taken aggregate_row r.target_peer_id r (queries.score_aggregates.rows t.aggregates)
  is_blocked now t (user_row r) =
      is_taken user_row r.public_key
        (received_user now (queries.users.find_unique r.public_key t.people) r)
        (queries.users.rows t.people)
  is_blocked now t (message_row r) =
      is_taken message_row r.message.id
        (received_message now (queries.direct_messages.find_unique r.message.id t.messages) r)
        (queries.direct_messages.rows t.messages)

  -- A row that another server sends is there afterwards with the content that it had, or the row
  -- that was there if that is newer. Writing fails just if the row is not older and another row here
  -- has a unique column of it.
  pub apply_single_row-to_row_envelope :
      (now : ℕ) (row : TableRow) (t : Tables D)
      → ((is_older row (row_here row t) ≡ false)
          × (is_blocked now t row ≡ true)
          × (apply_single_row world order queries now (to_row_envelope world row) t
              ≡ err unique_failure))
        ⊎ ((t' : Tables D) × (apply_single_row world order queries now (to_row_envelope world row) t
              ≡ ok t')
            × (row_here row t' ≡ (
                if is_older row (row_here row t)
                then row_here row t
                else some (received now t row))))
  unfolding apply_single_row apply_row to_row_envelope
  apply_single_row-to_row_envelope now (node_row r) t =
      let e = to_row_envelope world (node_row r) in
      let old = queries.server_nodes.find_unique r.peer_id t.nodes in
      let same = node-received world now r old in
      elim (put-found order queries world node_row queries.server_nodes e
        (server_node_of world now r.peer_id (to_payload world (node_row r))) _ t.nodes
        (node-sent world now r)) [
          | inl (not_newer, taken, thrown) ↦ inl (
            ground (arith, not_newer, is_newer-envelope (node_row r) (row_here (node_row r) t)),
            ap (λ new. is_taken node_row r.peer_id new (queries.server_nodes.rows t.nodes))
                  (sym same)
                ∙ taken,
            ground (arith, thrown),
          )
          | inr (d, done, found) ↦ inr (
            record t { nodes = d },
            ground (arith, done),
            ground (
              arith,
              found r.peer_id,
              is_newer-envelope (node_row r) (row_here (node_row r) t),
              beq_refl r.peer_id,
              same,
            ),
          )
        ]
  apply_single_row-to_row_envelope now (report_row r) t =
      let e = to_row_envelope world (report_row r) in
      let old = queries.score_reports.find_unique r.id t.reports in
      let same = report-received world now r old in
      elim (put-found order queries world report_row queries.score_reports e
        (score_report_of world now r.id (to_payload world (report_row r))) _ t.reports
        (report-sent world now r)) [
          | inl (not_newer, taken, thrown) ↦ inl (
            ground (arith, not_newer, is_newer-envelope (report_row r) (row_here (report_row r) t)),
            ap (λ new. is_taken report_row r.id new (queries.score_reports.rows t.reports))
                  (sym same)
                ∙ taken,
            ground (arith, thrown),
          )
          | inr (d, done, found) ↦ inr (
            record t { reports = d },
            ground (arith, done),
            ground (
              arith,
              found r.id,
              is_newer-envelope (report_row r) (row_here (report_row r) t),
              beq_refl r.id,
              same,
            ),
          )
        ]
  apply_single_row-to_row_envelope now (aggregate_row r) t =
      let e = to_row_envelope world (aggregate_row r) in
      let old = queries.score_aggregates.find_unique r.target_peer_id t.aggregates in
      let same = aggregate-received world r old in
      elim (put-found order queries world aggregate_row queries.score_aggregates e
        (score_aggregate_of world r.target_peer_id (to_payload world (aggregate_row r))) _
        t.aggregates (aggregate-sent world r)) [
          | inl (not_newer, taken, thrown) ↦ inl (
            ground (
              arith,
              not_newer,
              is_newer-envelope (aggregate_row r) (row_here (aggregate_row r) t),
            ),
            ap
                  (λ new.
                    is_taken aggregate_row r.target_peer_id new
                      (queries.score_aggregates.rows t.aggregates))
                  (sym same)
                ∙ taken,
            ground (arith, thrown),
          )
          | inr (d, done, found) ↦ inr (
            record t { aggregates = d },
            ground (arith, done),
            ground (
              arith,
              found r.target_peer_id,
              is_newer-envelope (aggregate_row r) (row_here (aggregate_row r) t),
              beq_refl r.target_peer_id,
              same,
            ),
          )
        ]
  apply_single_row-to_row_envelope now (user_row r) t =
      let e = to_row_envelope world (user_row r) in
      let old = queries.users.find_unique r.public_key t.people in
      let same = user-received world now r old in
      elim (put-found order queries world user_row queries.users e
        (ok (synced_user world now r.public_key (to_payload world (user_row r)))) _ t.people
        (refl)) [
          | inl (not_newer, taken, thrown) ↦ inl (
            ground (arith, not_newer, is_newer-envelope (user_row r) (row_here (user_row r) t)),
            ap (λ new. is_taken user_row r.public_key new (queries.users.rows t.people)) (sym same)
                ∙ taken,
            ground (arith, thrown),
          )
          | inr (d, done, found) ↦ inr (
            record t { people = d },
            ground (arith, done),
            ground (
              arith,
              found r.public_key,
              is_newer-envelope (user_row r) (row_here (user_row r) t),
              beq_refl r.public_key,
              same,
            ),
          )
        ]
  apply_single_row-to_row_envelope now (message_row r) t =
      let e = to_row_envelope world (message_row r) in
      let old = queries.direct_messages.find_unique r.message.id t.messages in
      let same = message-received world now r old in
      elim (put-found order queries world message_row queries.direct_messages e
        (direct_message_of world now r.message.id (to_payload world (message_row r))) _ t.messages
        (message-sent world now r)) [
          | inl (not_newer, taken, thrown) ↦ inl (
            ground
                (arith, not_newer, is_newer-envelope (message_row r) (row_here (message_row r) t)),
            ap
                  (λ new.
                    is_taken message_row r.message.id new (queries.direct_messages.rows t.messages))
                  (sym same)
                ∙ taken,
            ground (arith, thrown),
          )
          | inr (d, done, found) ↦ inr (
            record t { messages = d },
            ground (arith, done),
            ground (
              arith,
              found r.message.id,
              is_newer-envelope (message_row r) (row_here (message_row r) t),
              beq_refl r.message.id,
              same,
            ),
          )
        ]

  pub ok-injective : (a b : Tables D) → ok a ≡ ok b → a ≡ b
  ok-injective a b h = cc h
