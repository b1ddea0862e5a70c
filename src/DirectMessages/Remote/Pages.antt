-- ===== src/DirectMessages/Remote/Pages.antt =====
-- The pages in which another server fetches the messages of a user.
use open_chat_be.Prelude.{
  Bool, Bool-cases, List, String, [], ap, arith, inl, inr, keep, length, length-sort, length-take,
  map, max, nat_beq, nat_eq, none, refl, some, sort, sort-perm, string_eq, subst, suc, sym, take,
  zero, ℕ, ◌&&◌, ◌-◌, ◌∷◌, ◌≡◌, ◌≢◌, ◌≤◌,
}
use mathlib.Core.List.{Perm}
use mathlib.Core.List.Perm
use open_chat_be.DirectMessages.Types.{DirectMessage, InterServerDmPullRequestPayload}
use open_chat_be.DirectMessages.Table.{
  map_to_inter_server_replicate_payload, MessageTable, DirectMessageConfig, MessageWorld,
}
use open_chat_be.DirectMessages.Queue.{is_pending}
use open_chat_be.DirectMessages.Remote.{
  id_before, last_id, pull_limit, is_after, pull_rows, handle_inter_server_pull_request,
}

last_id-of_suc :
    (n : ℕ) (rows : List DirectMessage)
    → length rows ≡ suc n
    → (id : String) × (last_id rows ≡ some id)
last_id-of_suc n [] h = absurd (omega arith)
last_id-of_suc n (row ∷ []) h = (row.id, refl)
last_id-of_suc zero (row ∷ next ∷ rest) h = absurd (omega arith)
last_id-of_suc (suc n) (row ∷ next ∷ rest) h = last_id-of_suc n (next ∷ rest) (omega arith)

take-all {ℓ} : {A : Type ℓ} (n : ℕ) (xs : List A) → length (take n xs) ≢ n → take n xs ≡ xs
take-all zero xs h = absurd (h refl)
take-all (suc n) [] h = refl
take-all (suc n) (x ∷ xs) h = ap (λ r. x ∷ r) (take-all n xs (λ q. h (ap suc q)))

module _ (world : MessageWorld) (config : DirectMessageConfig) {D : Type 0} (table : MessageTable D)
    (before : String → String → Bool) where
  -- The rows that a request asks for.
  abbrev pub asked_rows : ℕ → InterServerDmPullRequestPayload → D → List DirectMessage
  asked_rows now p d =
      keep
        (λ row. is_after world config table before p.cursor row && is_pending now p.public_key row)
        (table.rows d)

  -- An answer never has more rows than a batch may have, and no less than one is allowed for.
  pull_rows-bounds :
      (now : ℕ) (p : InterServerDmPullRequestPayload) (d : D)
      → (length (pull_rows world config table before now p d) ≤ max 1 config.pull_batch_size)
        × (length (pull_rows world config table before now p d) ≤ length (asked_rows now p d))
        × (1 ≤ pull_limit world config table p.limit)
  unfolding pull_rows pull_limit
  pull_rows-bounds now p d =
      let sorted = sort (id_before before) (asked_rows now p d) in
      let taken = length-take (pull_limit world config table p.limit) sorted in
      let all = length-sort (id_before before) (asked_rows now p d) in
      (ground (arith, taken), omega (arith, taken, all), omega arith)

  pull_rows-complete :
      (now : ℕ) (p : InterServerDmPullRequestPayload) (d : D)
      → (handle_inter_server_pull_request world config table before now p d).next_cursor ≡ none
      → Perm (asked_rows now p d) (pull_rows world config table before now p d)
  unfolding handle_inter_server_pull_request pull_rows
  pull_rows-complete now p d h =
      let limit = pull_limit world config table p.limit in
      let rows = pull_rows world config table before now p d in
      let sorted = sort (id_before before) (asked_rows now p d) in
      let positive = (pull_rows-bounds now p d).2 in
      elim (Bool-cases (nat_beq (length rows) limit)) [
        | inl full ↦
            let (id, found) = last_id-of_suc (limit - 1) rows (ground (arith, positive, full)) in
            absurd (cc (full, found, h))
        | inr short ↦
            subst (λ x. Perm (asked_rows now p d) x)
              (sym (take-all limit sorted (λ q. ground (arith, short, q))))
              (sort-perm (id_before before) (asked_rows now p d))
      ]

  -- If an answer has no cursor, then its items are those of all rows that were asked for, each once,
  -- so that a server that stops there has missed none.
  pub handle_inter_server_pull_request-complete :
      (now : ℕ) (p : InterServerDmPullRequestPayload) (d : D)
      → (handle_inter_server_pull_request world config table before now p d).next_cursor ≡ none
      → Perm
          (map (map_to_inter_server_replicate_payload world config) (asked_rows now p d))
          (handle_inter_server_pull_request world config table before now p d).items
  handle_inter_server_pull_request-complete now p d h =
      unfold handle_inter_server_pull_request in
      Perm.map (map_to_inter_server_replicate_payload world config) (pull_rows-complete now p d h)
