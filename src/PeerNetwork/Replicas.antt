-- ===== src/PeerNetwork/Replicas.antt =====
-- src/modules/peer_network/peer_network.service.ts: which servers keep a copy of a message, and
-- when enough of them do. The candidates and the answers of the servers are parameters.
use open_chat_be.Prelude.{
  Bool, Bool-cases, List, String, [], add, add_all, ap, arith, contains, false, if◌then◌else◌, inl,
  inr, keep, leb, length, length-append, max, nat_beq, nat_eq, not, refl, string_eq, suc, sym, take,
  take-all, to_set, true, zero, ℕ, ◌&&◌, ◌*◌, ◌++◌, ◌+◌, ◌<◌, ◌==◌, ◌∙◌, ◌∷◌, ◌≡◌,
}
use mathlib.Core.List.{append_assoc, append-nil}

module _ (local_peer_id : String) where
  abbrev pub is_candidate : String → Bool
  is_candidate peer_id = not (peer_id == local_peer_id) && not (peer_id == "unknown_peer")

  -- The loop over the candidates, which stops once there are enough.
  unfoldable pub pick_replicas : ℕ → List String → List String → List String
  pick_replicas count [] selected = selected
  pick_replicas count (peer_id ∷ rest) selected =
      elim (is_candidate peer_id && not (contains selected peer_id)) [
        | false ↦ pick_replicas count rest selected
        | true ↦ elim (leb count (length (selected ++ peer_id ∷ []))) [
          | true ↦ selected ++ peer_id ∷ []
          | false ↦ pick_replicas count rest (selected ++ peer_id ∷ [])
        ]
      ]

  -- `closest` answers with the peers closest to a key, of which so many are asked for.
  unfoldable pub select_replica_peer_ids_for_user :
      (String → ℕ → List String) → String → ℕ → List String
  unfolding pick_replicas
  select_replica_peer_ids_for_user closest public_key count =
      if nat_beq count 0
      then []
      else pick_replicas count (closest public_key (max (count * 3) (count + 3))) []

  add_all-extends : (s xs : List String) → (t : List String) × (add_all s xs ≡ s ++ t)
  unfolding add_all add
  add_all-extends s [] = ([], sym (append-nil s))
  add_all-extends s (x ∷ xs) = elim (Bool-cases (contains s x)) [
    | inl h ↦ let (t, e) = add_all-extends s xs in (t, rw h e)
    | inr h ↦
        let (t, e) = add_all-extends (s ++ x ∷ []) xs in
        (x ∷ t, rw h (e ∙ append_assoc s (x ∷ []) t))
  ]

  take-append : (s t : List String) → take (length s) (s ++ t) ≡ s
  take-append [] t = refl
  take-append (x ∷ s) t = ap (λ r. x ∷ r) (take-append s t)

  pick_replicas_lem :
      (count : ℕ) (peers selected : List String)
      → length selected < count
      → pick_replicas count peers selected ≡ take count (add_all selected (keep is_candidate peers))
  unfolding pick_replicas add_all add
  pick_replicas_lem count [] selected h = sym (take-all count selected (omega arith))
  pick_replicas_lem count (p ∷ ps) selected h = elim (Bool-cases (is_candidate p)) [
    | inr barred ↦ ground (arith, barred, pick_replicas_lem count ps selected h)
    | inl allowed ↦ elim (Bool-cases (contains selected p)) [
      | inl known ↦ ground (arith, allowed, known, pick_replicas_lem count ps selected h)
      | inr new ↦ elim (Bool-cases (leb count (length (selected ++ p ∷ [])))) [
        | inr short ↦
            let rest = pick_replicas_lem count ps (selected ++ p ∷ []) (ground (arith, short)) in
            ground (arith, allowed, new, short, rest)
        | inl full ↦
            let (t, e) = add_all-extends (selected ++ p ∷ []) (keep is_candidate ps) in
            let size : length (selected ++ p ∷ []) ≡ count =
              ground (arith, full, length-append selected (p ∷ [])) in
            let enough : take count (add_all (selected ++ p ∷ []) (keep is_candidate ps))
                ≡ selected ++ p ∷ [] =
              ap (λ r. take count r) e
              ∙ ap (λ n. take n ((selected ++ p ∷ []) ++ t)) (sym size)
              ∙ take-append (selected ++ p ∷ []) t in
            ground (arith, allowed, new, full, enough)
      ]
    ]
  ]

  -- The replicas of a user are the first so many of the closest peers, each once, without this
  -- server and unknown peers: all of them if there are no more.
  pub select_replica_peer_ids_for_user-take :
      (closest : String → ℕ → List String) (public_key : String) (count : ℕ)
      → select_replica_peer_ids_for_user closest public_key count
        ≡ take count (to_set (keep is_candidate (closest public_key (max (count * 3) (count + 3)))))
  unfolding select_replica_peer_ids_for_user to_set
  select_replica_peer_ids_for_user-take closest public_key zero = refl
  select_replica_peer_ids_for_user-take closest public_key (suc n) = ground (
    arith,
    pick_replicas_lem (suc n) (closest public_key (max (suc n * 3) (suc n + 3))) [] (omega arith),
  )
