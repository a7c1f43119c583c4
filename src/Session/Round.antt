-- ===== src/Session/Round.antt =====
-- validator-session/src/round.rs: the state of a round, its questions about blocks, approvals,
-- precommits and signatures, and the choice of a block to vote for.
pub mod Actions
pub mod Attempts
pub mod Invariant
pub mod Voting
pub mod Choosing
pub mod Blocks
pub mod Approving
pub mod Signing
pub mod Stepping
pub mod Recording
pub mod Locking
pub mod Sourced
pub mod Progress
pub mod Steps
pub mod Outcomes
pub mod Merging
pub mod Proposing
pub mod Examples
use ton_labs_node.Base.{
  ℕ, zero, suc, ◌+◌, ◌-◌, Bool, true, false, ◌&&◌, ◌||◌, not, List, [], ◌∷◌, ◌++◌, replicate,
  length, ◌==◌, ltb, leb, if◌then◌else◌, Option, none, some, is_some, u32, Outcome, done, panic, at,
  assert, unwrap, ◌>>=◌, ◌>>◌,
}
use ton_labs_node.Session.Description.{
  SessionDescription, ℤ, pos, negsuc, get_total_nodes, get_node_priority, get_max_priority,
  get_vote_for_author, weigh,
}
use ton_labs_node.Session.Vector.{wrapped_at, create_wrapper}
use ton_labs_node.Session.SortedVector.{search, Place, hit, slot, iter}
use ton_labs_node.Session.SentBlock.{SentBlockPtr}
use ton_labs_node.Session.BlockCandidate
use ton_labs_node.Session.BlockCandidate.{
  BlockCandidate, Signature, check_block_is_approved, check_block_is_approved_by,
}
use ton_labs_node.Session.Attempt.{RoundAttempt, RoundView, get_voted_block}

pub record RoundState : Type 0 where
  pub precommitted_block : Option SentBlockPtr
  pub sequence_number : ℕ
  pub first_attempt : Option (List ℕ)
  pub last_precommit : Option (List ℕ)
  pub sent_blocks : Option (List BlockCandidate)
  pub signatures : List (Option Signature)
  pub attempts : Option (List RoundAttempt)

-- `create_current_round`
unfoldable pub create_current_round : SessionDescription → ℕ → RoundState
create_current_round desc sequence_number = record {
  precommitted_block = none;
  sequence_number = sequence_number;
  first_attempt = create_wrapper (replicate (get_total_nodes desc) 0);
  last_precommit = create_wrapper (replicate (get_total_nodes desc) 0);
  sent_blocks = none;
  signatures = replicate (get_total_nodes desc) none;
  attempts = none;
}

unfoldable pub attempt_at : List RoundAttempt → Place → Outcome (Option RoundAttempt)
attempt_at attempts (hit middle) = do attempt ← at attempts middle; done (some attempt)
attempt_at attempts (slot right) = done none

-- `get_attempt`: the binary search of a sorted vector, on the sequence number.
unfoldable pub get_attempt : Option (List RoundAttempt) → ℕ → Outcome (Option RoundAttempt)
unfolding attempt_at
get_attempt none attempt_id = done none
get_attempt (some attempts) attempt_id =
    search (λ a. a.sequence_number) attempts attempt_id (length attempts) 0 (length attempts)
    >>= attempt_at attempts

abbrev pub get_first_attempt : RoundState → ℕ → Outcome ℕ
get_first_attempt state src_idx = wrapped_at state.first_attempt src_idx

abbrev pub get_last_precommit : RoundState → ℕ → Outcome ℕ
get_last_precommit state src_idx = wrapped_at state.last_precommit src_idx

-- The loop of `get_candidate`
unfoldable pub candidate_in : List BlockCandidate → ℕ → Option BlockCandidate
candidate_in [] block_id = none
candidate_in (candidate ∷ candidates) block_id =
    if BlockCandidate.get_id candidate == block_id
    then some candidate
    else candidate_in candidates block_id

abbrev pub get_candidate : RoundState → ℕ → Option BlockCandidate
get_candidate state block_id = candidate_in (iter state.sent_blocks) block_id

abbrev pub get_block : RoundState → ℕ → Option BlockCandidate
get_block state block_id = get_candidate state block_id

-- The loop of `check_block_is_sent_by`, which passes over the skip candidate.
unfoldable pub sent_by : List BlockCandidate → ℕ → Bool
sent_by [] src_idx = false
sent_by (candidate ∷ candidates) src_idx =
    is_some candidate.block && BlockCandidate.get_source_index candidate == src_idx
    || sent_by candidates src_idx

abbrev pub check_block_is_sent_by : RoundState → ℕ → Bool
check_block_is_sent_by state src_idx = sent_by (iter state.sent_blocks) src_idx

-- The loop of `get_block_approvers` over the `count` validators from `i` on.
approvers_from : BlockCandidate → ℕ → ℕ → Outcome (List ℕ)
approvers_from block i zero = done []
approvers_from block i (suc count) = do
  approved ← check_block_is_approved_by block i
  rest ← approvers_from block (i + 1) count
  done (if approved then i ∷ rest else rest)

get_block_approvers : SessionDescription → RoundState → ℕ → Outcome (List ℕ)
unfolding approvers_from
get_block_approvers desc state block_id = elim (get_candidate state block_id) [
  | none ↦ done []
  | some block ↦ approvers_from block 0 (get_total_nodes desc)
]

-- The loop of `get_blocks_approved_by`
approved_blocks : List BlockCandidate → ℕ → Outcome (List SentBlockPtr)
approved_blocks [] src_idx = done []
approved_blocks (candidate ∷ candidates) src_idx = do
  approved ← check_block_is_approved_by candidate src_idx
  rest ← approved_blocks candidates src_idx
  done (if approved then candidate.block ∷ rest else rest)

get_blocks_approved_by : RoundState → ℕ → Outcome (List SentBlockPtr)
unfolding approved_blocks
get_blocks_approved_by state src_idx = approved_blocks (iter state.sent_blocks) src_idx

-- `check_block_is_approved_by` of the round
block_is_approved_by : RoundState → ℕ → ℕ → Outcome Bool
block_is_approved_by state src_idx block_id = elim (get_candidate state block_id) [
  | none ↦ done false
  | some candidate ↦ check_block_is_approved_by candidate src_idx
]

-- The loop of `check_need_generate_vote_for` over the blocks.
unfoldable pub some_approved : SessionDescription → List BlockCandidate → Outcome Bool
some_approved desc [] = done false
some_approved desc (block ∷ blocks) =
    let rest = some_approved desc blocks in
    check_block_is_approved desc block >>= λ approved. if approved then done true else rest

has_vote_for : Option RoundAttempt → Bool
has_vote_for none = false
has_vote_for (some attempt) = is_some attempt.vote_for

-- Its tests after those of the author and of the precommitted block.
unfoldable pub need_vote_for : SessionDescription → RoundState → ℕ → ℕ → Outcome Bool
unfolding some_approved has_vote_for
need_vote_for desc state first attempt_id =
    let max_attempts = desc.options.max_round_attempts in
    if first == 0 && ltb 0 max_attempts
    then done false
    else if ltb attempt_id (u32 (first + max_attempts)) && ltb 0 max_attempts
    then done false
    else (get_attempt state.attempts attempt_id >>= λ attempt.
        if has_vote_for attempt then done false else some_approved desc (iter state.sent_blocks))

unfoldable pub check_need_generate_vote_for : SessionDescription → RoundState → ℕ → ℕ → Outcome Bool
unfolding need_vote_for
check_need_generate_vote_for desc state src_idx attempt_id =
    get_vote_for_author desc attempt_id >>= λ author.
    if not (src_idx == author)
    then done false
    else if is_some state.precommitted_block
    then done false
    else (get_first_attempt state src_idx >>= λ first. need_vote_for desc state first attempt_id)

-- The block of the attempt in which the validator last precommitted.
unfoldable pub last_precommit_block :
    SessionDescription → Option (List RoundAttempt) → ℕ → Outcome (Option SentBlockPtr)
last_precommit_block desc attempts attempt_id = do
  found ← get_attempt attempts attempt_id
  attempt ← unwrap found
  block ← get_voted_block desc attempt
  assert (is_some block)
  done block

-- The loop over the attempts, from the newest one back.
unfoldable pub newest_voted : SessionDescription → List RoundAttempt → Outcome (Option SentBlockPtr)
newest_voted desc [] = done none
newest_voted desc (attempt ∷ attempts) = newest_voted desc attempts >>= λ newer.
    if is_some newer then done newer else get_voted_block desc attempt

-- `as i32`
unfoldable pub i32 : ℕ → ℤ
i32 n = if ltb n 2147483648 then pos n else negsuc (4294967295 - n)

unfoldable pub lt_int : ℤ → ℤ → Bool
lt_int (pos a) (pos b) = ltb a b
lt_int (pos a) (negsuc b) = false
lt_int (negsuc a) (pos b) = true
lt_int (negsuc a) (negsuc b) = ltb b a

module _ (desc : SessionDescription) (sequence_number : ℕ) where
  -- The rank of a candidate; the skip candidate comes after every block.
  unfoldable pub candidate_priority : BlockCandidate → Outcome ℤ
  unfolding i32
  candidate_priority candidate = elim candidate.block [
    | none ↦ done (i32 (u32 (get_max_priority desc + 1)))
    | some block ↦ get_node_priority desc block.source_id sequence_number
  ]

  -- One candidate of the search for the block with the minimal priority.
  unfoldable pub better :
      ℤ × Option SentBlockPtr → BlockCandidate → Outcome (ℤ × Option SentBlockPtr)
  unfolding candidate_priority lt_int
  better best candidate = check_block_is_approved desc candidate >>= λ approved.
      if approved
      then (candidate_priority candidate >>= λ priority.
          (assert (not (lt_int priority (pos 0)))
            >> done (if lt_int priority best.0 then (priority, some candidate.block) else best)))
      else done best

  unfoldable pub best_from :
      ℤ × Option SentBlockPtr → List BlockCandidate → Outcome (ℤ × Option SentBlockPtr)
  unfolding better
  best_from best [] = done best
  best_from best (candidate ∷ candidates) =
      better best candidate >>= λ next. best_from next candidates

  unfoldable pub best_block : List BlockCandidate → Outcome (Option SentBlockPtr)
  unfolding best_from
  best_block candidates = do
    let max_priority = i32 (u32 (get_max_priority desc + 2))
    best ← best_from (max_priority, none) candidates
    done (if lt_int best.0 max_priority then best.1 else none)

-- A validator leaves the quick rounds when it has made `max_round_attempts` attempts.
unfoldable pub slow_mode : SessionDescription → ℕ → ℕ → Bool
slow_mode desc first_attempt_id attempt_id =
    let max_attempts = desc.options.max_round_attempts in
    ltb 0 first_attempt_id && leb (u32 (first_attempt_id + max_attempts)) attempt_id
    || max_attempts == 0

module _ (desc : SessionDescription) (state : RoundState) where
  unfoldable pub fast_choice : Outcome (Option SentBlockPtr)
  unfolding newest_voted best_block
  fast_choice = newest_voted desc (iter state.attempts) >>= λ voted.
      if is_some voted
      then done voted
      else best_block desc state.sequence_number (iter state.sent_blocks)

  unfoldable pub unlocked_choice : ℕ → ℕ → Option SentBlockPtr → Outcome (Option SentBlockPtr)
  unfolding fast_choice slow_mode
  unlocked_choice src_idx attempt_id vote_for =
      get_first_attempt state src_idx >>= λ first_attempt_id.
      if slow_mode desc first_attempt_id attempt_id then done vote_for else fast_choice

  unfoldable pub choose_block_to_vote : ℕ → ℕ → Option SentBlockPtr → Outcome (Option SentBlockPtr)
  unfolding last_precommit_block unlocked_choice
  choose_block_to_vote src_idx attempt_id vote_for =
      if is_some state.sent_blocks
      then (get_last_precommit state src_idx >>= λ last.
          if ltb 0 last
          then last_precommit_block desc state.attempts last
          else unlocked_choice src_idx attempt_id vote_for)
      else done none

  -- What an attempt sees of the round.
  abbrev pub round_view : RoundView
  round_view = record {
    sequence_number = state.sequence_number;
    get_first_attempt = get_first_attempt state;
    get_block = get_block state;
    choose_block_to_vote = choose_block_to_vote;
  }

  unfoldable pub check_block_is_signed : Outcome Bool
  check_block_is_signed = weigh is_some desc state.signatures

abbrev pub check_block_is_signed_by : RoundState → ℕ → Outcome Bool
check_block_is_signed_by state src_idx =
    at state.signatures src_idx >>= λ signature. done (is_some signature)

abbrev pub choose_block_to_sign : RoundState → Option SentBlockPtr
choose_block_to_sign state = state.precommitted_block
