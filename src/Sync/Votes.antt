-- ===== src/Sync/Votes.antt =====
-- src/modules/peer_network/sync/services/vote_verification.service.ts: which hash of a row the
-- validators agree on.
pub mod Counting
pub mod Winner
pub mod Arrival
use open_chat_be.Prelude.{
  Bool, List, Map, Option, String, [], if◌then◌else◌, insert, leb, length, lookup, ltb, map,
  nat_beq, nat_eq, none, not, or_else, some, sort, string_eq, true, ℕ, ◌&&◌, ◌*◌, ◌++◌, ◌+◌, ◌==◌,
  ◌||◌, ◌∷◌,
}
use open_chat_be.Text.{TextOrder}
use open_chat_be.Sync.Types.{SyncRowEnvelope}

pub record ValidatorVoteResult : Type 0 where
  pub peer_id : String
  pub votes : Map String (Option String)
  pub weight : ℕ

pub record RowConsensusResult : Type 0 where
  pub chosen_hash : String
  pub primary_key : String
  pub supporting_peer_ids : List String
  pub weak_consensus : Bool

-- The state of the loop over the votes.
pub record Tally : Type 0 where
  pub hash_weight_map : Map String ℕ
  pub supporters_map : Map String (List String)
  pub responding_weight : ℕ

abbrev pub no_votes : Tally
no_votes = record { hash_weight_map = []; supporters_map = []; responding_weight = 0 }

-- `undefined`, `null` and "" are all no vote.
abbrev pub given_hash : Option (Option String) → Option String
given_hash none = none
given_hash (some none) = none
given_hash (some (some hash)) = if hash == "" then none else some hash

abbrev pub vote_for : String → ValidatorVoteResult → Option String
vote_for primary_key v = given_hash (lookup primary_key v.votes)

unfoldable pub count_vote : Option String → String → ℕ → Tally → Tally
count_vote none peer_id weight t = t
count_vote (some hash) peer_id weight t = record {
  hash_weight_map =
      insert hash (or_else (lookup hash t.hash_weight_map) 0 + weight) t.hash_weight_map;
  supporters_map =
      insert hash (or_else (lookup hash t.supporters_map) [] ++ peer_id ∷ []) t.supporters_map;
  responding_weight = t.responding_weight + weight;
}

unfoldable pub count_votes : String → List ValidatorVoteResult → Tally → Tally
count_votes primary_key [] t = t
count_votes primary_key (v ∷ vs) t =
    count_votes primary_key vs (count_vote (vote_for primary_key v) v.peer_id v.weight t)

module _ (order : TextOrder) where
  -- `left` is not after `right` in the order of the sort: more weight first, then the hash.
  abbrev pub entry_before : String × ℕ → String × ℕ → Bool
  entry_before left right =
      if nat_beq right.1 left.1 then order.before left.0 right.0 else ltb right.1 left.1

  unfoldable pub decide_row : String → ℕ → Tally → RowConsensusResult
  decide_row primary_key vote_count t = elim (sort entry_before t.hash_weight_map) [
    | [] ↦ record {
      chosen_hash = "";
      primary_key = primary_key;
      supporting_peer_ids = [];
      weak_consensus = true;
    }
    | winner ∷ rest ↦ record {
      chosen_hash = winner.0;
      primary_key = primary_key;
      supporting_peer_ids = or_else (lookup winner.0 t.supporters_map) [];
      weak_consensus =
          not (ltb 0 t.responding_weight && ltb t.responding_weight (2 * winner.1))
          || leb vote_count 1;
    }
  ]

  unfoldable pub resolve_row_consensus : String → List ValidatorVoteResult → RowConsensusResult
  resolve_row_consensus primary_key votes =
      decide_row primary_key (length votes) (count_votes primary_key votes no_votes)

  unfoldable pub choose_hashes :
      {P : Type 0} → List (SyncRowEnvelope P) → List ValidatorVoteResult → List RowConsensusResult
  choose_hashes rows votes = map (λ row. resolve_row_consensus row.primary_key votes) rows
