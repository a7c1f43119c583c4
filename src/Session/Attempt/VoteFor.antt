-- ===== src/Session/Attempt/VoteFor.antt =====
-- When a vote-for block may be sent and when it is accepted (round.rs,
-- `check_need_generate_vote_for`, and round_attempt.rs, `apply_vote_for_action`).
use ton_labs_node.Base.{
  ℕ, ◌+◌, ◌<◌, ◌≡◌, refl, ap, true, false, ◌==◌, ltb, lt→ltb, none, some, is_some, u32, done, arith,
  Bool-cases, inl, inr,
}
use ton_labs_node.Session.Description.{SessionDescription, get_vote_for_author}
use ton_labs_node.Session.BlockCandidate.{BlockCandidate, check_block_is_approved}
use ton_labs_node.Session.Attempt.{RoundAttempt, apply_vote_for_action, too_early}
use ton_labs_node.Session.Round.{
  RoundState, get_first_attempt, get_block, round_view, check_need_generate_vote_for,
}

-- When attempts are limited, and while the author has begun the round but not yet made them all,
-- the author may not send a vote-for block. But an attempt without one accepts it from the author
-- at that time, when the block is known and approved: the two tests of the time differ.
pub vote_for-early :
    (desc : SessionDescription) (state : RoundState) (src attempt_id first candidate_id : ℕ)
    (candidate : BlockCandidate) (attempt : RoundAttempt)
    → get_vote_for_author desc attempt_id ≡ done src
    → get_first_attempt state src ≡ done first
    → 0 < first
    → 0 < desc.options.max_round_attempts
    → attempt_id < u32 (first + desc.options.max_round_attempts)
    → attempt.vote_for ≡ none
    → get_block state candidate_id ≡ some candidate
    → check_block_is_approved desc candidate ≡ done true
    → (check_need_generate_vote_for desc state src attempt_id ≡ done false)
      × (apply_vote_for_action desc (round_view desc state) src attempt_id attempt candidate_id
          ≡ done (record attempt { vote_for = some candidate.block }))
unfolding check_need_generate_vote_for apply_vote_for_action too_early
vote_for-early desc state src attempt_id first candidate_id candidate attempt author started
      positive quick early unset found approved =
    let unset_too : is_some attempt.vote_for ≡ false = ap is_some unset in
    let same : (src == src) ≡ true = ground arith in
    let no_first : (first == 0) ≡ false = ground arith in
    let not_slow : (desc.options.max_round_attempts == 0) ≡ false = ground arith in
    let some_attempts : ltb 0 desc.options.max_round_attempts ≡ true = lt→ltb _ _ quick in
    let soon : ltb attempt_id (u32 (first + desc.options.max_round_attempts)) ≡ true =
      lt→ltb _ _ early in
    (
      elim (Bool-cases (is_some state.precommitted_block)) [
        | inl t ↦ rw (author, same, t) refl
        | inr t ↦ rw (author, same, t, started, no_first, soon, some_attempts) refl
      ],
      rw (unset_too, author, same, started, no_first, soon, not_slow, found, approved) refl,
    )
