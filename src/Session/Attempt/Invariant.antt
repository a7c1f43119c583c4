-- ===== src/Session/Attempt/Invariant.antt =====
-- The invariant of an attempt, kept by every action without a panic (round_attempt.rs).
use ton_labs_node.Base.{
  ℕ, ◌≡◌, refl, true, List, [], ◌∷◌, length, Option, none, some, All, done, arith, Bool-cases, ◌⊎◌,
  inl, inr, if◌then◌else◌,
}
use ton_labs_node.Session.Description.{SessionDescription}
use ton_labs_node.Session.Description.Weights.{IsWeighed, Passes}
use ton_labs_node.Session.Description.Priority.{IsSized}
use ton_labs_node.Session.SortedVector.{iter}
use ton_labs_node.Session.SortedVector.Order.{IsSorted, find, find-All, find-Above}
use ton_labs_node.Session.SentBlock
use ton_labs_node.Session.SentBlock.{SentBlockPtr}
use ton_labs_node.Session.VoteCandidate
use ton_labs_node.Session.VoteCandidate.{VoteCandidate, get_id, voted, check_block_is_voted}
use ton_labs_node.Session.VoteCandidate.Votes.{
  IsVote, voted_total, with_vote, create_unvoted-IsVote,
}
use ton_labs_node.Session.Attempt.{RoundAttempt, first_voted, get_candidate, vote_candidate_of}

module _ (desc : SessionDescription) where
  -- Some block of the attempt is voted.
  abbrev pub HasVoted : List VoteCandidate → Type 0
  HasVoted votes = (b : SentBlockPtr) × (first_voted desc votes ≡ done (some b))

  -- Between two actions: the candidates are in order, every vector has an entry for each validator,
  -- and nobody has precommitted unless a block is voted.
  pub record IsAttempt (attempt : RoundAttempt) : Type 0 where
    pub sorted : IsSorted get_id (iter attempt.votes)
    pub candidates : All (IsVote desc) (iter attempt.votes)
    pub flags : length attempt.precommitted ≡ length desc.sources
    pub backed : Passes voted attempt.precommitted → HasVoted (iter attempt.votes)

  module _ (weighed : IsWeighed desc) where
    pub first_voted_total :
        (votes : List VoteCandidate)
        → All (IsVote desc) votes
        → (o : Option SentBlockPtr) × (first_voted desc votes ≡ done o)
    unfolding first_voted
    first_voted_total [] v = (none, refl)
    first_voted_total (vote ∷ votes) v =
        let (b, e) = voted_total desc weighed vote v.0 in
        let (o, r) = first_voted_total votes v.1 in
        ((if b then some vote.block else o), ground arith)

    -- A voted candidate that is in the list makes some block voted.
    pub voted-HasVoted :
        (k : ℕ) (vote : VoteCandidate) (votes : List VoteCandidate)
        → All (IsVote desc) votes
        → find get_id k votes ≡ some vote
        → check_block_is_voted desc vote ≡ done true
        → HasVoted votes
    unfolding first_voted find
    voted-HasVoted k vote [] v e h = ground arith
    voted-HasVoted k vote (x ∷ votes) v e h =
        let (b, q) = voted_total desc weighed x v.0 in
        elim (Bool-cases b) [
          | inl t ↦ (x.block, ground arith)
          | inr f ↦
              let (c, r) = voted-HasVoted k vote votes v.1 (ground arith) h in (c, ground arith)
        ]

    -- And the other way round.
    pub HasVoted-voted :
        (votes : List VoteCandidate)
        → IsSorted get_id votes
        → All (IsVote desc) votes
        → HasVoted votes
        → (vote : VoteCandidate) × (find get_id (get_id vote) votes ≡ some vote)
          × (check_block_is_voted desc vote ≡ done true)
    unfolding first_voted find
    HasVoted-voted [] s v (b, e) = absurd (cc e)
    HasVoted-voted (x ∷ votes) s v (b, e) =
        let (t, q) = voted_total desc weighed x v.0 in
        elim (Bool-cases t) [
          | inl y ↦ (x, ground arith, ground arith)
          | inr n ↦
              let (w, f, g) = HasVoted-voted votes s.1 v.1 (b, ground arith) in
              (w, ground (arith, find-Above get_id (get_id x) (get_id w) w votes s.0 f), g)
        ]

get_candidate-find :
    (votes : List VoteCandidate) (k : ℕ) → get_candidate votes k ≡ find get_id k votes
unfolding get_candidate find
get_candidate-find [] k = refl
get_candidate-find (vote ∷ votes) k = ground (arith, get_candidate-find votes k)

-- The candidate that a vote for a block goes to, with that vote.
abbrev pub next_vote : SessionDescription → List VoteCandidate → SentBlockPtr → ℕ → VoteCandidate
next_vote desc votes block src = with_vote (vote_candidate_of desc votes block) src

module _ (desc : SessionDescription) (sized : IsSized desc) (votes : List VoteCandidate)
    (candidates : All (IsVote desc) votes) (block : SentBlockPtr) where
  -- It is the one that the attempt has for the block, or a new one with no votes.
  pub vote_candidate_cases :
      (find get_id (SentBlock.get_id block) votes ≡ some (vote_candidate_of desc votes block))
      ⊎ ((find get_id (SentBlock.get_id block) votes ≡ none)
          × (vote_candidate_of desc votes block ≡ VoteCandidate.create_unvoted desc block))
  unfolding vote_candidate_of
  vote_candidate_cases = ground (arith, get_candidate-find votes (SentBlock.get_id block))

  pub vote_candidate-IsVote :
      IsVote desc (vote_candidate_of desc votes block)
      × (get_id (vote_candidate_of desc votes block) ≡ SentBlock.get_id block)
  vote_candidate-IsVote = elim vote_candidate_cases [
    | inl e ↦ find-All get_id (IsVote desc) (SentBlock.get_id block) votes _ candidates e
    | inr (e, q) ↦ rw q (
      create_unvoted-IsVote desc block (omega arith),
      unfold VoteCandidate.create_unvoted in refl,
    )
  ]
