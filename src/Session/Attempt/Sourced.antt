-- ===== src/Session/Attempt/Sourced.antt =====
-- Where the blocks of an attempt come from: an action adds only a block that the round gives it
-- (round_attempt.rs).
use ton_labs_node.Base.{
  ℕ, ◌<◌, ◌≡◌, refl, Bool, true, false, List, [], ◌∷◌, length, Option, none, some, is_some, ◌==◌,
  All, done, Always, done-Always, bind-Always, if-Always, Bool-cases, ◌>>=◌, inl, inr, subst,
}
use ton_labs_node.Session.Description.{SessionDescription, get_vote_for_author}
use ton_labs_node.Session.Description.Weights.{IsWeighed}
use ton_labs_node.Session.Description.Priority.{IsSized}
use ton_labs_node.Session.Merge.{Same}
use ton_labs_node.Session.SortedVector.{iter}
use ton_labs_node.Session.SortedVector.Order.{insert-All, find-All}
use ton_labs_node.Session.SentBlock
use ton_labs_node.Session.SentBlock.{SentBlockPtr}
use ton_labs_node.Session.VoteCandidate
use ton_labs_node.Session.VoteCandidate.{VoteCandidate, get_id, check_block_is_voted}
use ton_labs_node.Session.BlockCandidate.{BlockCandidate, check_block_is_approved}
use ton_labs_node.Session.Message.{Message}
use ton_labs_node.Session.Attempt.{
  RoundAttempt, RoundView, first_voted, received_from, get_voted_block, record_vote,
  record_precommit, try_vote, try_precommit, apply_default_action, apply_vote_for_action,
  apply_action, vote_for_block, too_early,
}
use ton_labs_node.Session.Attempt.Invariant.{IsAttempt, next_vote, vote_candidate_cases}
use ton_labs_node.Session.Attempt.Actions.{record_vote-lem}

module _ {κ} (P : SentBlockPtr → Type κ) where
  -- Every block of the attempt has the property.
  pub record Sourced (attempt : RoundAttempt) : Type κ where
    pub votes : All (λ vote. P vote.block) (iter attempt.votes)
    pub proposal : (b : SentBlockPtr) → attempt.vote_for ≡ some b → P b

  -- An optional block has it.
  abbrev pub SourcedBlock : Option SentBlockPtr → Type κ
  SourcedBlock o = (b : SentBlockPtr) → o ≡ some b → P b

  -- A voted block is one of the attempt's.
  pub first_voted-Sourced :
      (desc : SessionDescription) (votes : List VoteCandidate)
      → All (λ vote. P vote.block) votes
      → Always SourcedBlock (first_voted desc votes)
  unfolding first_voted
  first_voted-Sourced desc [] h = done-Always SourcedBlock none (λ b e. absurd (cc e))
  first_voted-Sourced desc (vote ∷ votes) h =
      bind-Always SourcedBlock (check_block_is_voted desc vote) (λ is_voted q.
        if-Always SourcedBlock is_voted
          (λ t.
            done-Always SourcedBlock (some vote.block)
              (λ b e. let s : vote.block ≡ b = cc in subst P s h.0))
          (λ t. first_voted-Sourced desc votes h.1))

  module _ (desc : SessionDescription) (weighed : IsWeighed desc) (sized : IsSized desc)
      (vote_same : Same VoteCandidate) (view : RoundView) (src attempt_id : ℕ)
      (known : src < length desc.sources)
      (chosen : (vote_for : Option SentBlockPtr)
        → SourcedBlock vote_for
        → Always SourcedBlock (view.choose_block_to_vote src attempt_id vote_for))
      (held : (id : ℕ) (candidate : BlockCandidate)
        → view.get_block id ≡ some candidate
        → P candidate.block)
      (attempt : RoundAttempt) (inv : IsAttempt desc attempt) (sourced : Sourced attempt) where
    abbrev Kept : RoundAttempt × Bool → Type κ
    Kept result = Sourced result.0

    next_vote-block :
        (block : SentBlockPtr) → P block → P (next_vote desc (iter attempt.votes) block src).block
    next_vote-block block h =
        elim (vote_candidate_cases desc sized (iter attempt.votes) inv.candidates block) [
          | inl e ↦
              (find-All get_id (λ vote. P vote.block) (SentBlock.get_id block) (iter attempt.votes)
                _ sourced.votes e).0
          | inr (e, q) ↦ rw q (unfold VoteCandidate.create_unvoted in h)
        ]

    record_vote-Sourced :
        (o : Option SentBlockPtr)
        → SourcedBlock o
        → Always Kept (record_vote desc vote_same src attempt o)
    record_vote-Sourced none h = unfold record_vote in done-Always Kept (attempt, false) sourced
    record_vote-Sourced (some block) h =
        rw (record_vote-lem desc weighed sized vote_same src known attempt inv block) (
          done-Always Kept _ (record {
            votes =
                insert-All get_id (λ vote. P vote.block)
                  (next_vote desc (iter attempt.votes) block src) (iter attempt.votes)
                  (next_vote-block block (h block refl)) sourced.votes;
            proposal = sourced.proposal;
          }))

    try_vote-Sourced : Always Kept (try_vote desc vote_same view src attempt_id attempt)
    unfolding try_vote
    try_vote-Sourced = bind-Always Kept (received_from (iter attempt.votes) src) (λ received e.
        if-Always Kept received (λ t. done-Always Kept (attempt, false) sourced)
          (λ t.
            bind-Always Kept (view.choose_block_to_vote src attempt_id attempt.vote_for)
              (λ o q. record_vote-Sourced o (chosen attempt.vote_for sourced.proposal o q))))

    record_precommit-Sourced :
        (o : Option SentBlockPtr) → Always Kept (record_precommit src attempt o)
    unfolding record_precommit
    record_precommit-Sourced none = done-Always Kept (attempt, false) sourced
    record_precommit-Sourced (some block) = bind-Always Kept _ (λ precommitted e.
        done-Always Kept (record attempt { precommitted = precommitted }, true)
          (record { votes = sourced.votes; proposal = sourced.proposal }))

    try_precommit-Sourced : Always Kept (try_precommit desc vote_same view src attempt_id attempt)
    unfolding try_precommit
    try_precommit-Sourced = bind-Always Kept _ (λ received e.
        if-Always Kept received (λ t. done-Always Kept (attempt, false) sourced)
          (λ t.
            bind-Always Kept (get_voted_block desc attempt) (λ o q. record_precommit-Sourced o)))

    pub apply_default_action-Sourced :
        Always Kept (apply_default_action desc vote_same view src attempt_id attempt)
    unfolding apply_default_action
    apply_default_action-Sourced =
        bind-Always Kept (try_vote desc vote_same view src attempt_id attempt) (λ vote e.
          if-Always Kept vote.1 (λ t. done-Always Kept vote (try_vote-Sourced vote e))
            (λ t.
              bind-Always Kept (try_precommit desc vote_same view src attempt_id attempt) (λ p q.
                done-Always Kept _ (elim (Bool-cases p.1) [
                  | inl u ↦ rw u (try_precommit-Sourced p q)
                  | inr u ↦ rw u sourced
                ]))))

    vote_for_block-Sourced :
        (o : Option BlockCandidate)
        → ((candidate : BlockCandidate) → o ≡ some candidate → P candidate.block)
        → Always Sourced (vote_for_block desc attempt o)
    unfolding vote_for_block
    vote_for_block-Sourced none h = done-Always Sourced attempt sourced
    vote_for_block-Sourced (some candidate) h =
        bind-Always Sourced (check_block_is_approved desc candidate) (λ approved e.
          elim (Bool-cases approved) [
            | inl t ↦ rw t (
                done-Always Sourced (record attempt { vote_for = some candidate.block })
                  (record {
                    votes = sourced.votes;
                    proposal =
                        λ b q. let s : candidate.block ≡ b = cc in subst P s (h candidate refl);
                  }))
            | inr t ↦ rw t (done-Always Sourced attempt sourced)
          ])

    apply_vote_for-Sourced :
        (candidate_id : ℕ)
        → Always Sourced (apply_vote_for_action desc view src attempt_id attempt candidate_id)
    unfolding apply_vote_for_action
    apply_vote_for-Sourced candidate_id =
        if-Always Sourced (is_some attempt.vote_for) (λ t. done-Always Sourced attempt sourced)
          (λ t. bind-Always Sourced (get_vote_for_author desc attempt_id) (λ author e.
            if-Always Sourced (src == author)
              (λ u. bind-Always Sourced (view.get_first_attempt src) (λ first q.
                if-Always Sourced (too_early desc first attempt_id)
                  (λ v. done-Always Sourced attempt sourced)
                  (λ v. vote_for_block-Sourced (view.get_block candidate_id) (held candidate_id))))
              (λ u. done-Always Sourced attempt sourced)))

    default-Sourced :
        Always Sourced
          (apply_default_action desc vote_same view src attempt_id attempt >>= λ r. done r.0)
    default-Sourced =
        bind-Always Sourced _ (λ r e. done-Always Sourced r.0 (apply_default_action-Sourced r e))

    -- A message leaves every block of the attempt with a property that the round's blocks have.
    pub apply_action-Sourced :
        (message : Message)
        → Always Sourced (apply_action desc vote_same view src attempt_id attempt message)
    unfolding apply_action
    apply_action-Sourced (Message.vote_for _ _ candidate) = apply_vote_for-Sourced candidate
    apply_action-Sourced (Message.vote _ _ _) = default-Sourced
    apply_action-Sourced (Message.precommit _ _ _) = default-Sourced
    apply_action-Sourced (Message.empty _ _) = default-Sourced
    apply_action-Sourced (Message.submitted_block _ _ _ _) = λ a e. absurd (cc e)
    apply_action-Sourced (Message.approved_block _ _ _) = λ a e. absurd (cc e)
    apply_action-Sourced (Message.rejected_block _ _ _) = λ a e. absurd (cc e)
    apply_action-Sourced (Message.commit _ _ _) = λ a e. absurd (cc e)
