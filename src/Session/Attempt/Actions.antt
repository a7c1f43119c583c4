-- ===== src/Session/Attempt/Actions.antt =====
-- What a vote and a precommit make of an attempt (round_attempt.rs).
use ton_labs_node.Base.{
  ℕ, ◌<◌, ◌≡◌, refl, ◌∙◌, subst, Bool, true, false, List, [], ◌∷◌, length, set, get_elem?-some,
  Option, none, some, All, done, arith, Bool-cases, inl, inr, length-set, ◌==◌, if◌then◌else◌,
}
use ton_labs_node.Session.Description.{SessionDescription}
use ton_labs_node.Session.Description.Weights.{IsWeighed}
use ton_labs_node.Session.Description.Priority.{IsSized}
use ton_labs_node.Session.Merge.{Same}
use ton_labs_node.Session.Vector.{change}
use ton_labs_node.Session.SortedVector.{iter}
use ton_labs_node.Session.SortedVector.Order.{
  find, insert, insert-IsSorted, find-insert, insert-All,
}
use ton_labs_node.Session.SortedVector.Push.{push-eq-insert}
use ton_labs_node.Session.SentBlock
use ton_labs_node.Session.SentBlock.{SentBlockPtr}
use ton_labs_node.Session.VoteCandidate.{VoteCandidate, get_id, check_block_is_voted}
use ton_labs_node.Session.VoteCandidate.Votes.{IsVote, push-lem, with_vote-IsVote, voted-push}
use ton_labs_node.Session.Attempt.{
  RoundAttempt, received_from, vote_candidate_of, record_vote, record_precommit,
}
use ton_labs_node.Session.Attempt.Invariant.{
  HasVoted, IsAttempt, voted-HasVoted, HasVoted-voted, next_vote, vote_candidate_cases,
  vote_candidate-IsVote,
}

-- The attempt after a vote for a block, and after a precommit.
abbrev pub with_block_vote : SessionDescription → ℕ → RoundAttempt → SentBlockPtr → RoundAttempt
with_block_vote desc src attempt block = record attempt {
  votes = some (insert get_id (next_vote desc (iter attempt.votes) block src) (iter attempt.votes));
}

abbrev pub with_precommit : ℕ → RoundAttempt → RoundAttempt
with_precommit src attempt = record attempt { precommitted = set attempt.precommitted src true }

module _ (desc : SessionDescription) (weighed : IsWeighed desc) (sized : IsSized desc)
    (vote_same : Same VoteCandidate) (src : ℕ) (known : src < length desc.sources)
    (attempt : RoundAttempt) (inv : IsAttempt desc attempt) where
  module _ (block : SentBlockPtr) where
    next_vote-IsVote : IsVote desc (next_vote desc (iter attempt.votes) block src)
    next_vote-IsVote =
        with_vote-IsVote desc (vote_candidate_of desc (iter attempt.votes) block)
          (vote_candidate-IsVote desc sized (iter attempt.votes) inv.candidates block).0 src known

    pub record_vote-lem :
        record_vote desc vote_same src attempt (some block)
        ≡ done (with_block_vote desc src attempt block, true)
    unfolding record_vote
    record_vote-lem =
        rw
          (push-lem desc (vote_candidate_of desc (iter attempt.votes) block)
            (vote_candidate-IsVote desc sized (iter attempt.votes) inv.candidates block).0 src
            known)
          (rw
            (push-eq-insert get_id vote_same attempt.votes
              (next_vote desc (iter attempt.votes) block src) inv.sorted)
            refl)

    -- A vote for a voted block leaves it voted.
    next_voted :
        (w : VoteCandidate)
        → find get_id (SentBlock.get_id block) (iter attempt.votes) ≡ some w
        → check_block_is_voted desc w ≡ done true
        → check_block_is_voted desc (next_vote desc (iter attempt.votes) block src) ≡ done true
    next_voted w f y =
        let votes = iter attempt.votes in
        let c = vote_candidate_of desc votes block in
        voted-push desc c (vote_candidate-IsVote desc sized votes inv.candidates block).0 src known
          weighed
          (elim (vote_candidate_cases desc sized votes inv.candidates block) [
            | inl e ↦ let q : w ≡ c = cc in subst (λ x. check_block_is_voted desc x ≡ done true) q y
            | inr e ↦ cc
          ])

    -- A voted block stays voted: the vote adds to its candidate or to another one.
    pub still_voted :
        HasVoted desc (iter attempt.votes)
        → HasVoted desc (iter (with_block_vote desc src attempt block).votes)
    still_voted h =
        let votes = iter attempt.votes in
        let v = next_vote desc (iter attempt.votes) block src in
        let (w, f, y) = HasVoted-voted desc weighed votes inv.sorted inv.candidates h in
        let all : All (IsVote desc) (insert get_id v votes) =
          insert-All get_id (IsVote desc) v votes next_vote-IsVote inv.candidates in
        elim (Bool-cases (get_id v == get_id w)) [
          | inl t ↦
              let e : get_id w ≡ SentBlock.get_id block =
                ground (arith, (vote_candidate-IsVote desc sized votes inv.candidates block).1) in
              voted-HasVoted desc weighed (get_id w) v (insert get_id v votes) all
                (rw (find-insert get_id (get_id w) v votes inv.sorted, t) refl)
                (next_voted w (subst (λ k. find get_id k votes ≡ some w) e f) y)
          | inr t ↦
              voted-HasVoted desc weighed (get_id w) w (insert get_id v votes) all
                (rw (find-insert get_id (get_id w) v votes inv.sorted, t) f) y
        ]

    pub with_block_vote-IsAttempt : IsAttempt desc (with_block_vote desc src attempt block)
    with_block_vote-IsAttempt = record {
      sorted =
          insert-IsSorted get_id (next_vote desc (iter attempt.votes) block src)
            (iter attempt.votes) inv.sorted;
      candidates =
          insert-All get_id (IsVote desc) (next_vote desc (iter attempt.votes) block src)
            (iter attempt.votes) next_vote-IsVote inv.candidates;
      flags = inv.flags;
      backed = λ p. still_voted (inv.backed p);
    }

  pub with_precommit-IsAttempt :
      HasVoted desc (iter attempt.votes) → IsAttempt desc (with_precommit src attempt)
  with_precommit-IsAttempt h = record {
    sorted = inv.sorted;
    candidates = inv.candidates;
    flags = length-set attempt.precommitted src true ∙ inv.flags;
    backed = λ p. h;
  }

  pub received_total :
      (votes : List VoteCandidate)
      → All (IsVote desc) votes
      → (b : Bool) × (received_from votes src ≡ done b)
  unfolding received_from
  received_total [] v = (false, refl)
  received_total (vote ∷ votes) v =
      let (b, e) = get_elem?-some vote.voted_by src (omega (arith, v.0.flags)) in
      let (c, r) = received_total votes v.1 in ((if b then true else c), ground arith)

  pub record_precommit-lem :
      (o : Option SentBlockPtr)
      → record_precommit src attempt o
        ≡ done (elim o [ none ↦ (attempt, false) | some b ↦ (with_precommit src attempt, true) ])
  unfolding record_precommit change
  record_precommit-lem none = refl
  record_precommit-lem (some b) =
      let (f, e) = get_elem?-some attempt.precommitted src (omega (arith, inv.flags)) in
      ground (arith, inv.flags)
