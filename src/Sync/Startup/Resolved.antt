-- ===== src/Sync/Startup/Resolved.antt =====
-- Which rows the votes let through.
use open_chat_be.Prelude.{
  Bool, Bool-cases, List, List-cases, Option, Option-cases, String, [], ap, arith, either_case,
  eq_of_beq, inl, inr, nat_eq, none, refl, some, string_eq, sym, true, ◌==◌, ◌||◌, ◌∙◌, ◌∷◌, ◌≡◌,
  ◌⊎◌,
}
use open_chat_be.Json.{Value}
use open_chat_be.Sync.Types.{SyncTableName, SyncRowEnvelope}
use open_chat_be.Sync.Serve.{SyncFetchByKeysResponse}
use open_chat_be.Sync.Validators.{SyncValidator}
use open_chat_be.Sync.Votes.{RowConsensusResult}
use open_chat_be.Sync.Startup.{
  StartupSyncRuntime, ask_supporters, fetch_row_from_supporters, as_by_keys, matching,
  preferred_peer_ids, resolve_row,
}

module _ (runtime : StartupSyncRuntime) (run_id : String) (table : SyncTableName) where
  hash-matching :
      (expected : String) (o : Option SyncFetchByKeysResponse) (row : SyncRowEnvelope Value)
      → matching runtime expected o ≡ some row
      → row.canonical_hash ≡ expected
  hash-matching expected none row h = absurd cc
  hash-matching expected (some response) row h = elim (List-cases response.items) [
    | inl empty ↦ absurd (cc (empty, h))
    | inr (first, rows, items) ↦ elim (Bool-cases (first.canonical_hash == expected)) [
      | inl same ↦
          let found : first ≡ row = cc (items, same, h) in
          ap (λ (r : SyncRowEnvelope Value). r.canonical_hash) (sym found)
          ∙ eq_of_beq first.canonical_hash expected same
      | inr other ↦ absurd (cc (items, other, h))
    ]
  ]

  -- A row that a supporter sends has the hash that was chosen.
  hash-ask_supporters :
      (key expected : String) (peers : List String) (row : SyncRowEnvelope Value)
      → ask_supporters runtime run_id table key expected peers ≡ some row
      → row.canonical_hash ≡ expected
  unfolding ask_supporters
  hash-ask_supporters key expected [] row h = absurd cc
  hash-ask_supporters key expected (peer_id ∷ peers) row h =
      let answer = as_by_keys table (
        runtime.ask_by_keys peer_id (record { keys = key ∷ []; run_id = run_id; table = table })) in
      elim (Option-cases (matching runtime expected answer)) [
        | inl missing ↦ hash-ask_supporters key expected peers row (cc (missing, h))
        | inr (found, e) ↦ hash-matching expected answer row (cc (e, h))
      ]

  -- The row of the source that the vote does not contradict, or that nobody could replace.
  abbrev IsOfSource :
      RowConsensusResult → SyncRowEnvelope Value → SyncRowEnvelope Value × Bool → Type 0
  IsOfSource c source_row result =
      (result.0 ≡ source_row)
      × ((c.chosen_hash ≡ "") ⊎ (c.chosen_hash ≡ source_row.canonical_hash) ⊎ (result.1 ≡ true))

  abbrev IsAccounted :
      RowConsensusResult → SyncRowEnvelope Value → SyncRowEnvelope Value × Bool → Type 0
  IsAccounted c source_row result =
      IsOfSource c source_row result
      ⊎ ((result.0.canonical_hash ≡ c.chosen_hash) × (result.1 ≡ c.weak_consensus))

  from_supporters :
      (c : RowConsensusResult) (source_row : SyncRowEnvelope Value)
      (o : Option (SyncRowEnvelope Value))
      → ((row : SyncRowEnvelope Value) → o ≡ some row → row.canonical_hash ≡ c.chosen_hash)
      → IsAccounted c source_row
          (elim o [ none ↦ (source_row, true) | some row ↦ (row, c.weak_consensus) ])
  from_supporters c source_row none h = inl (refl, inr (inr refl))
  from_supporters c source_row (some row) h = inr (h row refl, refl)

  from_source :
      (c : RowConsensusResult) (source_row : SyncRowEnvelope Value)
      → (c.chosen_hash == "" || c.chosen_hash == source_row.canonical_hash) ≡ true
      → IsAccounted c source_row (source_row, c.weak_consensus)
  from_source c source_row h = elim (Bool-cases (c.chosen_hash == "")) [
    | inl none_chosen ↦ inl (refl, inl (eq_of_beq c.chosen_hash "" none_chosen))
    | inr chosen ↦ inl (
      refl,
      inr (inl (eq_of_beq c.chosen_hash source_row.canonical_hash (ground (arith, chosen, h)))),
    )
  ]

  -- A row comes out of a vote with the hash that was chosen, or it is the row of the source: since
  -- it has that hash, since none was chosen, or, marked as weak, since no supporter sent another.
  pub resolve_row-chosen :
      (c : RowConsensusResult) (validators : List SyncValidator)
      (source_row : SyncRowEnvelope Value)
      → let result = resolve_row runtime run_id table c validators source_row in
        ((result.0 ≡ source_row)
          × ((c.chosen_hash ≡ "")
              ⊎ (c.chosen_hash ≡ source_row.canonical_hash)
              ⊎ (result.1 ≡ true)))
        ⊎ ((result.0.canonical_hash ≡ c.chosen_hash) × (result.1 ≡ c.weak_consensus))
  unfolding resolve_row fetch_row_from_supporters
  resolve_row-chosen c validators source_row =
      either_case (λ r. IsAccounted c source_row r)
        (c.chosen_hash == "" || c.chosen_hash == source_row.canonical_hash)
        (from_source c source_row)
        (λ disputed.
          from_supporters c source_row
            (ask_supporters runtime run_id table c.primary_key c.chosen_hash
              (preferred_peer_ids runtime c.supporting_peer_ids validators))
            (hash-ask_supporters c.primary_key c.chosen_hash
              (preferred_peer_ids runtime c.supporting_peer_ids validators)))
