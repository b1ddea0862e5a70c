-- ===== src/Sync/Examples.antt =====
-- Runs of the choice between the hashes that validators give for a row, and, in the children, of the
-- synchronization of tables on a database in memory.
pub mod Memory
pub mod Copies
pub mod Rows
pub mod Servers
use open_chat_be.Prelude.{
  List, String, [], false, insert, length, lookup, nat_eq, refl, some, sort, string_eq, true, ℕ,
  ◌*◌, ◌<◌, ◌∷◌, ◌≡◌, ◌≢◌, ◌≤◌,
}
use mathlib.Core.List.Perm
use open_chat_be.Text.{TextOrder}
use open_chat_be.Sync.Votes.{
  ValidatorVoteResult, RowConsensusResult, resolve_row_consensus, count_votes, decide_row,
}
use open_chat_be.Sync.Votes.Counting.{support, turnout}
use open_chat_be.Sync.Votes.Winner.{verdict, IsMost, strong_consensus, resolve_row_consensus-IsMost}
use open_chat_be.Sync.Votes.Arrival.{resolve_row_consensus-order}

-- Every text may stand before every other.
abbrev any_order : TextOrder
any_order = record { before = λ a b. true; total = λ a b h. refl; trans = λ a b c h k. refl }

abbrev vote : String → String → ℕ → ValidatorVoteResult
vote peer_id hash weight = record {
  peer_id = peer_id;
  votes = ("row", some hash) ∷ [];
  weight = weight;
}

abbrev votes : List ValidatorVoteResult
votes = vote "p1" "h1" 40 ∷ vote "p2" "h2" 30 ∷ vote "p3" "h1" 20 ∷ []

abbrev reordered : List ValidatorVoteResult
reordered = vote "p2" "h2" 30 ∷ vote "p1" "h1" 40 ∷ vote "p3" "h1" 20 ∷ []

strong_consensus_example :
    (turnout "row" votes < 2 * support "row" (verdict any_order "row" votes).chosen_hash votes)
    × (2 ≤ length votes)
    × ((h : String)
        → h ≢ (verdict any_order "row" votes).chosen_hash
        → 2 * support "row" h votes < turnout "row" votes)
unfolding count_votes decide_row open_chat_be.Prelude.insert open_chat_be.Prelude.lookup
    open_chat_be.Prelude.sort open_chat_be.Sync.Votes.count_vote resolve_row_consensus
strong_consensus_example = strong_consensus any_order "row" votes refl

resolve_row_consensus-IsMost_example : IsMost any_order "row" votes (verdict any_order "row" votes)
resolve_row_consensus-IsMost_example = resolve_row_consensus-IsMost any_order "row" votes

resolve_row_consensus-order_example :
    ((resolve_row_consensus any_order "row" reordered).chosen_hash
      ≡ (resolve_row_consensus any_order "row" votes).chosen_hash)
    × ((resolve_row_consensus any_order "row" reordered).weak_consensus ≡ false)
unfolding count_votes decide_row open_chat_be.Prelude.insert open_chat_be.Prelude.lookup
    open_chat_be.Prelude.sort open_chat_be.Sync.Votes.count_vote resolve_row_consensus
resolve_row_consensus-order_example =
    resolve_row_consensus-order any_order "row" votes reordered
      (Perm.swap (vote "p2" "h2" 30) (vote "p1" "h1" 40) (vote "p3" "h1" 20 ∷ [])) refl
