-- ===== src/Session/Attempt/Moves.antt =====
-- The actions on an attempt as moves, and the invariant along them (round_attempt.rs).
use ton_labs_node.Base.{
  ℕ, ◌<◌, ◌≡◌, refl, ap, ◌∙◌, Bool, true, false, length, get_elem?, get_elem?-some, Option, none,
  some, is_some, Outcome, done, arith, Bool-cases, Option-cases, inl, inr, ◌==◌,
}
use ton_labs_node.Session.Description.{SessionDescription}
use ton_labs_node.Session.Description.Weights.{IsWeighed}
use ton_labs_node.Session.Description.Priority.{IsSized, vote_for_author_total}
use ton_labs_node.Session.Merge.{Same, never_same}
use ton_labs_node.Session.SortedVector.{iter}
use ton_labs_node.Session.SentBlock.{SentBlockPtr}
use ton_labs_node.Session.VoteCandidate.{VoteCandidate}
use ton_labs_node.Session.BlockCandidate.{BlockCandidate}
use ton_labs_node.Session.BlockCandidate.Approvals.{IsCandidate, approved_total}
use ton_labs_node.Session.Message.{Message}
use ton_labs_node.Session.Attempt.{
  RoundAttempt, RoundView, first_voted, received_from, try_vote, try_precommit,
  apply_default_action, apply_vote_for_action, apply_action, vote_for_block, too_early,
}
use ton_labs_node.Session.Attempt.Invariant.{HasVoted, IsAttempt, first_voted_total}
use ton_labs_node.Session.Attempt.Actions.{
  with_block_vote, with_precommit, record_vote-lem, record_precommit-lem, with_block_vote-IsAttempt,
  with_precommit-IsAttempt, received_total,
}

-- What one action of the validator `src` may do to an attempt.
pub data Move (desc : SessionDescription) (src : ℕ) : RoundAttempt → RoundAttempt → Type 0 where
  stays : {a : RoundAttempt} → Move desc src a a
  votes_for :
      {a : RoundAttempt} (b : SentBlockPtr)
      → received_from (iter a.votes) src ≡ done false
      → Move desc src a (with_block_vote desc src a b)
  precommits :
      {a : RoundAttempt} → HasVoted desc (iter a.votes) → Move desc src a (with_precommit src a)
  proposes :
      {a : RoundAttempt} (b : SentBlockPtr)
      → a.vote_for ≡ none
      → Move desc src a (record a { vote_for = some b })

-- The round answers the attempt without a panic.
pub record Answers (desc : SessionDescription) (view : RoundView) (src attempt_id : ℕ)
    : Type 0 where
  pub first : (n : ℕ) × (view.get_first_attempt src ≡ done n)
  pub choice :
      (vote_for : Option SentBlockPtr)
      → (o : Option SentBlockPtr) × (view.choose_block_to_vote src attempt_id vote_for ≡ done o)
  pub block :
      (id : ℕ) (candidate : BlockCandidate)
      → view.get_block id ≡ some candidate
      → IsCandidate desc candidate

module _ (desc : SessionDescription) (weighed : IsWeighed desc) (sized : IsSized desc) (src : ℕ)
    (known : src < length desc.sources) where
  -- A move keeps the invariant.
  pub Move-IsAttempt :
      {a b : RoundAttempt} → Move desc src a b → IsAttempt desc a → IsAttempt desc b
  Move-IsAttempt stays inv = inv
  Move-IsAttempt {a} (votes_for b h) inv =
      with_block_vote-IsAttempt desc weighed sized never_same src known a inv b
  Move-IsAttempt {a} (precommits h) inv =
      with_precommit-IsAttempt desc weighed sized never_same src known a inv h
  Move-IsAttempt (proposes b h) inv = record {
    sorted = inv.sorted;
    candidates = inv.candidates;
    flags = inv.flags;
    backed = inv.backed;
  }

-- The messages that a round passes on to an attempt.
abbrev pub IsAttemptMessage : Message → Type 0
IsAttemptMessage (Message.vote_for _ _ _) = Unit
IsAttemptMessage (Message.vote _ _ _) = Unit
IsAttemptMessage (Message.precommit _ _ _) = Unit
IsAttemptMessage (Message.empty _ _) = Unit
IsAttemptMessage _ = ⊥

module _ (desc : SessionDescription) (weighed : IsWeighed desc) (sized : IsSized desc)
    (vote_same : Same VoteCandidate) (view : RoundView) (src attempt_id : ℕ)
    (known : src < length desc.sources) (answers : Answers desc view src attempt_id)
    (attempt : RoundAttempt) (inv : IsAttempt desc attempt) where
  -- A result of the attempt's own steps: a move, or nothing done.
  abbrev Moved : Outcome (RoundAttempt × Bool) → Type 0
  Moved o =
      (r : RoundAttempt) × (made : Bool) × (o ≡ done (r, made))
      × Move desc src attempt r
      × (made ≡ false → r ≡ attempt)

  try_vote-Moved : Moved (try_vote desc vote_same view src attempt_id attempt)
  unfolding try_vote
  try_vote-Moved =
      let (received, e) =
        received_total desc weighed sized vote_same src known attempt inv (iter attempt.votes)
          inv.candidates in
      let (o, c) = answers.choice attempt.vote_for in
      elim (Bool-cases received) [
        | inl t ↦ (attempt, false, rw (e, t) refl, stays, λ h. refl)
        | inr t ↦ go o c (e ∙ ap done t)
      ]
    where
      go :
          (o : Option SentBlockPtr)
          → view.choose_block_to_vote src attempt_id attempt.vote_for ≡ done o
          → received_from (iter attempt.votes) src ≡ done false
          → Moved (try_vote desc vote_same view src attempt_id attempt)
      go none c t = (attempt, false, rw (t, c) refl, stays, λ h. refl)
      go (some b) c t = (
        with_block_vote desc src attempt b,
        true,
        rw (t, c) (record_vote-lem desc weighed sized vote_same src known attempt inv b),
        votes_for b t,
        λ h. absurd (cc h),
      )

  try_precommit-Moved : Moved (try_precommit desc vote_same view src attempt_id attempt)
  unfolding try_precommit
  try_precommit-Moved =
      let (received, e) = get_elem?-some attempt.precommitted src (omega (arith, inv.flags)) in
      let (o, c) = first_voted_total desc weighed (iter attempt.votes) inv.candidates in
      elim (Bool-cases received) [
        | inl t ↦ (attempt, false, rw (e, t) refl, stays, λ h. refl)
        | inr t ↦ go o c (e ∙ ap some t)
      ]
    where
      go :
          (o : Option SentBlockPtr)
          → first_voted desc (iter attempt.votes) ≡ done o
          → get_elem? attempt.precommitted src ≡ some false
          → Moved (try_precommit desc vote_same view src attempt_id attempt)
      go none c t = (attempt, false, rw (t, c) refl, stays, λ h. refl)
      go (some b) c t = (
        with_precommit src attempt,
        true,
        rw (t, c)
            (record_precommit-lem desc weighed sized vote_same src known attempt inv (some b)),
        precommits (b, c),
        λ h. absurd (cc h),
      )

  pub apply_default_action-Moved :
      Moved (apply_default_action desc vote_same view src attempt_id attempt)
  unfolding apply_default_action
  apply_default_action-Moved =
      let (v, voted, e, move, same) = try_vote-Moved in
      let (p, precommitted, f, next, kept) = try_precommit-Moved in
      elim (Bool-cases voted) [
        | inl t ↦ (v, true, rw e (ground (arith, t)), move, λ h. absurd (cc h))
        | inr t ↦ elim (Bool-cases precommitted) [
          | inl u ↦ (p, true, rw e (rw f (ground arith)), next, λ h. absurd (cc h))
          | inr u ↦ (attempt, false, rw e (rw f (ground arith)), stays, λ h. refl)
        ]
      ]

  -- A result that is a move.
  abbrev MovedTo : Outcome RoundAttempt → Type 0
  MovedTo o = (a : RoundAttempt) × (o ≡ done a) × Move desc src attempt a

  vote_for_block-MovedTo :
      (o : Option BlockCandidate)
      → attempt.vote_for ≡ none
      → ((candidate : BlockCandidate) → o ≡ some candidate → IsCandidate desc candidate)
      → MovedTo (vote_for_block desc attempt o)
  unfolding vote_for_block
  vote_for_block-MovedTo none h v = (attempt, refl, stays)
  vote_for_block-MovedTo (some candidate) h v =
      let (approved, e) = approved_total desc candidate weighed (v candidate refl) in
      elim (Bool-cases approved) [
        | inl t ↦ (
          record attempt { vote_for = some candidate.block },
          rw (e, t) refl,
          proposes candidate.block h,
        )
        | inr t ↦ (attempt, rw (e, t) refl, stays)
      ]

  apply_vote_for-MovedTo :
      (candidate_id : ℕ)
      → MovedTo (apply_vote_for_action desc view src attempt_id attempt candidate_id)
  unfolding apply_vote_for_action
  apply_vote_for-MovedTo candidate_id = elim (Option-cases attempt.vote_for) [
    | inr (b, e) ↦ (attempt, rw e refl, stays)
    | inl e ↦
        let (author, a) = vote_for_author_total desc sized attempt_id in
        let (first, f) = answers.first in
        let unset : is_some attempt.vote_for ≡ false = rw e refl in
        elim (Bool-cases (src == author)) [
          | inr t ↦ (attempt, rw (unset, a, t) refl, stays)
          | inl t ↦ elim (Bool-cases (too_early desc first attempt_id)) [
            | inl u ↦ (attempt, rw (unset, a, t, f, u) refl, stays)
            | inr u ↦
                let (w, q, m) =
                  vote_for_block-MovedTo (view.get_block candidate_id) e
                    (answers.block candidate_id) in
                (w, rw (unset, a, t, f, u) q, m)
          ]
        ]
  ]

  -- In a weighed and sized session, a message that a round passes on to an attempt, of a known
  -- validator, does not panic on an attempt with the invariant when the round answers. It changes
  -- nothing, or adds the validator's first vote, or its precommit when a block is voted, or the
  -- first vote-for block.
  pub apply_action-Move :
      (message : Message)
      → IsAttemptMessage message
      → MovedTo (apply_action desc vote_same view src attempt_id attempt message)
  unfolding apply_action
  apply_action-Move (Message.vote_for _ _ candidate) m = apply_vote_for-MovedTo candidate
  apply_action-Move (Message.vote _ _ _) m =
      let (a, made, e, move, _) = apply_default_action-Moved in (a, rw e refl, move)
  apply_action-Move (Message.precommit _ _ _) m =
      let (a, made, e, move, _) = apply_default_action-Moved in (a, rw e refl, move)
  apply_action-Move (Message.empty _ _) m =
      let (a, made, e, move, _) = apply_default_action-Moved in (a, rw e refl, move)
  apply_action-Move (Message.submitted_block _ _ _ _) m = absurd m
  apply_action-Move (Message.approved_block _ _ _) m = absurd m
  apply_action-Move (Message.rejected_block _ _ _) m = absurd m
  apply_action-Move (Message.commit _ _ _) m = absurd m
