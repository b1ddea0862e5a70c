-- ===== src/Sync/Startup/Agreed.antt =====
-- A page whose rows nobody disputes comes out of the votes as it was.
use open_chat_be.Prelude.{
  All, List, Map, String, [], ap, arith, eq_cases, inl, inr, insert, lookup, lookup-insert,
  lookup-insert_self, map, nat_eq, refl, some, string_eq, subst, true, ℕ, ◌∙◌, ◌∷◌, ◌≡◌, ◌⊎◌,
}
use open_chat_be.Text.{TextOrder}
use open_chat_be.Json.{Value}
use open_chat_be.Sync.Types.{SyncTableName, SyncRowEnvelope}
use open_chat_be.Sync.Tables.{TableRow, extract_primary_key, SyncWorld, to_row_envelope}
use open_chat_be.Sync.Database.{is_after, IsAscending}
use open_chat_be.Sync.Ordered.{is_after_irrefl}
use open_chat_be.Sync.Validators.{SyncValidator}
use open_chat_be.Sync.Votes.{
  ValidatorVoteResult, RowConsensusResult, resolve_row_consensus, choose_hashes, decide_row,
}
use open_chat_be.Sync.Startup.{
  StartupSyncRuntime, WeakRow, source_map, resolve_row, enqueue_if, resolve_rows_from_consensus,
}

-- The validators choose the hash of the row, or none at all.
abbrev pub IsAgreed : TextOrder → List ValidatorVoteResult → SyncRowEnvelope Value → Type 0
IsAgreed order votes row =
    let chosen = (resolve_row_consensus order row.primary_key votes).chosen_hash in
    (chosen ≡ "") ⊎ (chosen ≡ row.canonical_hash)

module _ (order : TextOrder) (world : SyncWorld) (runtime : StartupSyncRuntime) where
  abbrev env : TableRow → SyncRowEnvelope Value
  env row = to_row_envelope world row

  lookup-source_map_apart :
      (rows : List TableRow) (key : String) (m : Map String (SyncRowEnvelope Value))
      → All (λ later. is_after order key (extract_primary_key later) ≡ true) rows
      → lookup key (source_map runtime (map env rows) m) ≡ lookup key m
  unfolding source_map to_row_envelope
  lookup-source_map_apart [] key m h = refl
  lookup-source_map_apart (row ∷ rows) key m (after, h) =
      lookup-source_map_apart rows key (insert (extract_primary_key row) (env row) m) h
      ∙ elim (eq_cases (extract_primary_key row) key) [
        | inl same ↦ absurd (
            ground (
              arith,
              is_after_irrefl order key,
              subst (λ k. is_after order key k ≡ true) same after,
            ))
        | inr apart ↦ ground (
          arith,
          lookup-insert (extract_primary_key row) key (env row) m,
          string_eq.beq_iff (extract_primary_key row) key,
        )
      ]

  pub lookup-source_map :
      (rows : List TableRow) (m : Map String (SyncRowEnvelope Value))
      → IsAscending order extract_primary_key rows
      → All
          (λ row.
            lookup (extract_primary_key row) (source_map runtime (map env rows) m) ≡ some (env row))
          rows
  unfolding source_map to_row_envelope
  lookup-source_map [] m h = tt
  lookup-source_map (row ∷ rows) m (first, h) = (
    lookup-source_map_apart rows (extract_primary_key row)
          (insert (extract_primary_key row) (env row) m) first
        ∙ lookup-insert_self (extract_primary_key row) (env row) m,
    lookup-source_map rows (insert (extract_primary_key row) (env row) m) h,
  )

  module _ (now : ℕ) (run_id : String) (table : SyncTableName) (validators : List SyncValidator)
      (votes : List ValidatorVoteResult) where
    resolve_row-agreed :
        (row : TableRow)
        → IsAgreed order votes (env row)
        → (resolve_row runtime run_id table
            (resolve_row_consensus order (env row).primary_key votes)
            validators
            (env row)).0
          ≡ env row
    unfolding resolve_row
    resolve_row-agreed row (inl nothing) =
        let test =
          (string_eq.beq_iff (resolve_row_consensus order (env row).primary_key votes).chosen_hash
              "").1
            nothing in
        ground (arith, test)
    resolve_row-agreed row (inr same) =
        let test =
          (string_eq.beq_iff (resolve_row_consensus order (env row).primary_key votes).chosen_hash
              (env row).canonical_hash).1
            same in
        ground (arith, test)

    abbrev verdicts : List TableRow → List RowConsensusResult
    verdicts rows = choose_hashes order (map env rows) votes

    key-verdict : (key : String) → (resolve_row_consensus order key votes).primary_key ≡ key
    unfolding resolve_row_consensus decide_row
    key-verdict key = ground arith

    key_found :
        (row : TableRow) (sources : Map String (SyncRowEnvelope Value))
        → lookup (extract_primary_key row) sources ≡ some (env row)
        → lookup (env row).primary_key sources ≡ some (env row)
    unfolding to_row_envelope
    key_found row sources h = h

    -- The rows of a page that all agree on, out of the rows that the source sent.
    pub resolve_rows-agreed :
        (rows : List TableRow) (sources : Map String (SyncRowEnvelope Value))
        (queue : Map String WeakRow)
        → All (λ row. lookup (extract_primary_key row) sources ≡ some (env row)) rows
        → All (λ row. IsAgreed order votes (env row)) rows
        → (resolve_rows_from_consensus runtime now run_id table sources
            (verdicts rows)
            validators
            queue).0
          ≡ map env rows
    unfolding resolve_rows_from_consensus choose_hashes
    resolve_rows-agreed [] sources queue found agreed = refl
    resolve_rows-agreed (row ∷ rows) sources queue (here, found) (this, agreed) =
        let known : lookup (resolve_row_consensus order (env row).primary_key votes).primary_key
              sources
            ≡ some (env row) =
          ap (λ k. lookup k sources) (key-verdict (env row).primary_key)
          ∙ key_found row sources here in
        let resolved =
          resolve_row runtime run_id table (resolve_row_consensus order (env row).primary_key votes)
            validators (env row) in
        let queue' =
          enqueue_if runtime resolved.1 now table
            (resolve_row_consensus order (env row).primary_key votes).primary_key queue in
        let rest = resolve_rows-agreed rows sources queue' found agreed in
        cc (known, resolve_row-agreed row this, rest)
