-- ===== src/Sync/Votes/Counting.antt =====
-- The tally counts every vote once.
use open_chat_be.Prelude.{
  Bool, IsUnique, List, Option, Option-cases, String, [], arith, false, if◌then◌else◌, inl, inr,
  insert-IsUnique, is_some, lookup, lookup-insert, nat_eq, none, or_else, some, string_eq, sym, ℕ,
  ◌++◌, ◌+◌, ◌==◌, ◌∷◌, ◌≡◌, ◌≤◌,
}
use mathlib.Core.List.{append-nil, append_assoc}
use open_chat_be.Sync.Votes.{count_vote, count_votes, vote_for, ValidatorVoteResult, Tally}

abbrev pub votes_hash : String → String → ValidatorVoteResult → Bool
votes_hash key hash v = elim (vote_for key v) [ none ↦ false | some h ↦ h == hash ]

-- The weight of the validators that voted for a hash.
unfoldable pub support : String → String → List ValidatorVoteResult → ℕ
support key hash [] = 0
support key hash (v ∷ vs) = (if votes_hash key hash v then v.weight else 0) + support key hash vs

-- The weight of the validators that voted at all.
unfoldable pub turnout : String → List ValidatorVoteResult → ℕ
turnout key [] = 0
turnout key (v ∷ vs) = (if is_some (vote_for key v) then v.weight else 0) + turnout key vs

-- The validators that voted for a hash, in the order of their votes.
unfoldable pub voters : String → String → List ValidatorVoteResult → List String
voters key hash [] = []
voters key hash (v ∷ vs) =
    if votes_hash key hash v then v.peer_id ∷ voters key hash vs else voters key hash vs

pub support-le-turnout :
    (key hash : String) (vs : List ValidatorVoteResult) → support key hash vs ≤ turnout key vs
unfolding support turnout
support-le-turnout key hash [] = omega arith
support-le-turnout key hash (v ∷ vs) = ground (arith, support-le-turnout key hash vs)

abbrev pub weight_of : String → Tally → ℕ
weight_of hash t = or_else (lookup hash t.hash_weight_map) 0

abbrev pub supporters_of : String → Tally → List String
supporters_of hash t = or_else (lookup hash t.supporters_map) []

weight_of-count_vote :
    (o : Option String) (peer : String) (w : ℕ) (hash : String) (t : Tally)
    → weight_of hash (count_vote o peer w t)
      ≡ weight_of hash t + (elim o [ none ↦ 0 | some h ↦ if h == hash then w else 0 ])
unfolding count_vote
weight_of-count_vote none peer w hash t = ground arith
weight_of-count_vote (some h) peer w hash t =
    ground
      (arith, lookup-insert h hash (weight_of h t + w) t.hash_weight_map, string_eq.beq_iff h hash)

pub weight_of-count_votes :
    (key hash : String) (vs : List ValidatorVoteResult) (t : Tally)
    → weight_of hash (count_votes key vs t) ≡ weight_of hash t + support key hash vs
unfolding count_votes support
weight_of-count_votes key hash [] t = omega arith
weight_of-count_votes key hash (v ∷ vs) t = ground (
  arith,
  weight_of-count_votes key hash vs (count_vote (vote_for key v) v.peer_id v.weight t),
  weight_of-count_vote (vote_for key v) v.peer_id v.weight hash t,
)

pub responding-count_votes :
    (key : String) (vs : List ValidatorVoteResult) (t : Tally)
    → (count_votes key vs t).responding_weight ≡ t.responding_weight + turnout key vs
unfolding count_votes count_vote turnout
responding-count_votes key [] t = omega arith
responding-count_votes key (v ∷ vs) t = elim (Option-cases (vote_for key v)) [
  | inl e ↦ ground (arith, e, responding-count_votes key vs t)
  | inr (h, e) ↦
      ground (arith, e, responding-count_votes key vs (count_vote (some h) v.peer_id v.weight t))
]

supporters_of-count_vote :
    (h peer : String) (w : ℕ) (hash : String) (t : Tally)
    → supporters_of hash (count_vote (some h) peer w t)
      ≡ (if h == hash then supporters_of hash t ++ peer ∷ [] else supporters_of hash t)
unfolding count_vote
supporters_of-count_vote h peer w hash t = ground (
  arith,
  lookup-insert h hash (supporters_of h t ++ peer ∷ []) t.supporters_map,
  string_eq.beq_iff h hash,
)

pub supporters_of-count_votes :
    (key hash : String) (vs : List ValidatorVoteResult) (t : Tally)
    → supporters_of hash (count_votes key vs t) ≡ supporters_of hash t ++ voters key hash vs
unfolding count_votes count_vote voters
supporters_of-count_votes key hash [] t = sym (append-nil (supporters_of hash t))
supporters_of-count_votes key hash (v ∷ vs) t = elim (Option-cases (vote_for key v)) [
  | inl e ↦ ground (arith, e, supporters_of-count_votes key hash vs t)
  | inr (h, e) ↦ ground (
    arith,
    e,
    supporters_of-count_votes key hash vs (count_vote (some h) v.peer_id v.weight t),
    supporters_of-count_vote h v.peer_id v.weight hash t,
    append_assoc (supporters_of hash t) (v.peer_id ∷ []) (voters key hash vs),
  )
]

count_vote-IsUnique :
    (o : Option String) (peer : String) (w : ℕ) (t : Tally)
    → IsUnique t.hash_weight_map
    → IsUnique (count_vote o peer w t).hash_weight_map
unfolding count_vote
count_vote-IsUnique none peer w t u = u
count_vote-IsUnique (some h) peer w t u = insert-IsUnique h (weight_of h t + w) t.hash_weight_map u

pub count_votes-IsUnique :
    (key : String) (vs : List ValidatorVoteResult) (t : Tally)
    → IsUnique t.hash_weight_map
    → IsUnique (count_votes key vs t).hash_weight_map
unfolding count_votes
count_votes-IsUnique key [] t u = u
count_votes-IsUnique key (v ∷ vs) t u =
    count_votes-IsUnique key vs (count_vote (vote_for key v) v.peer_id v.weight t)
      (count_vote-IsUnique (vote_for key v) v.peer_id v.weight t u)
