-- ===== src/Session/Attempt.antt =====
-- validator-session/src/round_attempt.rs: the votes and precommits of one attempt of a round. The
-- contents of a message change only what the code logs, except in a `vote_for` message, so the
-- votes and the precommits take no message.
pub mod Invariant
pub mod Votes
pub mod Actions
pub mod Moves
pub mod Merging
pub mod VoteFor
pub mod Elections
pub mod Sourced
pub mod Progress
use ton_labs_node.Base.{
  ℕ, ◌+◌, Bool, true, false, ◌&&◌, ◌||◌, not, List, [], ◌∷◌, replicate, ◌==◌, ltb, if◌then◌else◌,
  Option, none, some, is_some, u32, Outcome, done, panic, at, assert, ◌>>=◌, ◌>>◌,
}
use ton_labs_node.Session.Description.{
  SessionDescription, get_total_nodes, get_vote_for_author, weigh,
}
use ton_labs_node.Session.Merge.{Same, option_same}
use ton_labs_node.Session.Vector.{change}
use ton_labs_node.Session.Vector.Merging.{merge_bools}
use ton_labs_node.Session.SortedVector
use ton_labs_node.Session.SortedVector.{iter}
use ton_labs_node.Session.SentBlock
use ton_labs_node.Session.SentBlock.{SentBlock, SentBlockPtr}
use ton_labs_node.Session.VoteCandidate
use ton_labs_node.Session.VoteCandidate.{VoteCandidate, voted}
use ton_labs_node.Session.BlockCandidate.{BlockCandidate, check_block_is_approved}
use ton_labs_node.Session.Message
use ton_labs_node.Session.Message.{Message}

pub record RoundAttempt : Type 0 where
  pub sequence_number : ℕ
  pub votes : Option (List VoteCandidate)
  pub precommitted : List Bool
  pub vote_for : Option SentBlockPtr

-- What an attempt asks of the round that it belongs to.
pub record RoundView : Type 0 where
  pub sequence_number : ℕ
  pub get_first_attempt : ℕ → Outcome ℕ
  pub get_block : ℕ → Option BlockCandidate
  pub choose_block_to_vote : ℕ → ℕ → Option SentBlockPtr → Outcome (Option SentBlockPtr)

-- The loop of `get_voted_block`
unfoldable pub first_voted : SessionDescription → List VoteCandidate → Outcome (Option SentBlockPtr)
first_voted desc [] = done none
first_voted desc (vote ∷ votes) =
    let rest = first_voted desc votes in
    VoteCandidate.check_block_is_voted desc vote >>= λ is_voted.
    if is_voted then done (some vote.block) else rest

abbrev pub get_voted_block : SessionDescription → RoundAttempt → Outcome (Option SentBlockPtr)
get_voted_block desc attempt = first_voted desc (iter attempt.votes)

-- The loop of `check_vote_received_from`
unfoldable pub received_from : List VoteCandidate → ℕ → Outcome Bool
received_from [] src_idx = done false
received_from (vote ∷ votes) src_idx =
    let rest = received_from votes src_idx in
    VoteCandidate.check_block_is_voted_by vote src_idx >>= λ is_voted.
    if is_voted then done true else rest

abbrev check_vote_received_from : RoundAttempt → ℕ → Outcome Bool
check_vote_received_from attempt src_idx = received_from (iter attempt.votes) src_idx

unfoldable pub check_attempt_is_precommitted : SessionDescription → RoundAttempt → Outcome Bool
check_attempt_is_precommitted desc attempt = weigh voted desc attempt.precommitted

abbrev pub check_precommit_received_from : RoundAttempt → ℕ → Outcome Bool
check_precommit_received_from attempt src_idx = at attempt.precommitted src_idx

-- `get_candidate`
unfoldable pub get_candidate : List VoteCandidate → ℕ → Option VoteCandidate
get_candidate [] block_id = none
get_candidate (vote ∷ votes) block_id =
    if VoteCandidate.get_id vote == block_id then some vote else get_candidate votes block_id

unfoldable pub create_empty : SessionDescription → ℕ → RoundAttempt
create_empty desc sequence_number = record {
  sequence_number = sequence_number;
  votes = none;
  precommitted = replicate (get_total_nodes desc) false;
  vote_for = none;
}

-- The last checks of a `vote_for`: the block is known and approved.
vote_for_block : SessionDescription → RoundAttempt → Option BlockCandidate → Outcome RoundAttempt
vote_for_block desc attempt none = done attempt
vote_for_block desc attempt (some candidate) =
    check_block_is_approved desc candidate >>= λ approved.
    done (if approved then record attempt { vote_for = some candidate.block } else attempt)

-- The tests of the time at which a `vote_for` may come.
too_early : SessionDescription → ℕ → ℕ → Bool
too_early desc first_attempt attempt_id =
    let max_attempts = desc.options.max_round_attempts in
    first_attempt == 0 && ltb 0 max_attempts
    || ltb attempt_id (u32 (first_attempt + max_attempts)) && max_attempts == 0

module _ (desc : SessionDescription) (round_state : RoundView) (src_idx attempt_id : ℕ) where
  pub apply_vote_for_action : RoundAttempt → ℕ → Outcome RoundAttempt
  unfolding vote_for_block too_early
  apply_vote_for_action attempt candidate_id =
      if is_some attempt.vote_for
      then done attempt
      else (get_vote_for_author desc attempt_id >>= λ author.
          if src_idx == author
          then (round_state.get_first_attempt src_idx >>= λ first_attempt.
              if too_early desc first_attempt attempt_id
              then done attempt
              else vote_for_block desc attempt (round_state.get_block candidate_id))
          else done attempt)

-- The candidate of the block, or a new one.
unfoldable pub vote_candidate_of :
    SessionDescription → List VoteCandidate → SentBlockPtr → VoteCandidate
vote_candidate_of desc votes block = elim (get_candidate votes (SentBlock.get_id block)) [
  | none ↦ VoteCandidate.create_unvoted desc block
  | some vote ↦ vote
]

pub record_vote :
    SessionDescription
    → Same VoteCandidate
    → ℕ
    → RoundAttempt
    → Option SentBlockPtr
    → Outcome (RoundAttempt × Bool)
unfolding vote_candidate_of
record_vote desc vote_same src_idx attempt none = done (attempt, false)
record_vote desc vote_same src_idx attempt (some block_to_vote) = do
  vote ← VoteCandidate.push (vote_candidate_of desc (iter attempt.votes) block_to_vote) src_idx
  votes ← SortedVector.push VoteCandidate.get_id vote_same attempt.votes vote
  done (record attempt { votes = votes }, true)

pub record_precommit : ℕ → RoundAttempt → Option SentBlockPtr → Outcome (RoundAttempt × Bool)
record_precommit src_idx attempt none = done (attempt, false)
record_precommit src_idx attempt (some voted_block) = do
  precommitted ← change attempt.precommitted src_idx true
  done (record attempt { precommitted = precommitted }, true)

module _ (desc : SessionDescription) (vote_same : Same VoteCandidate) (round_state : RoundView)
    (src_idx attempt_id : ℕ) where
  unfoldable pub try_vote : RoundAttempt → Outcome (RoundAttempt × Bool)
  unfolding record_vote
  try_vote attempt = check_vote_received_from attempt src_idx >>= λ received.
      if received
      then done (attempt, false)
      else (round_state.choose_block_to_vote src_idx attempt_id attempt.vote_for
          >>= λ block_to_vote. record_vote desc vote_same src_idx attempt block_to_vote)

  unfoldable pub try_precommit : RoundAttempt → Outcome (RoundAttempt × Bool)
  unfolding record_precommit
  try_precommit attempt = check_precommit_received_from attempt src_idx >>= λ received.
      if received
      then done (attempt, false)
      else (get_voted_block desc attempt >>= λ voted_block.
          record_precommit src_idx attempt voted_block)

  unfoldable pub apply_default_action : RoundAttempt → Outcome (RoundAttempt × Bool)
  apply_default_action attempt = try_vote attempt >>= λ vote_result.
      if vote_result.1
      then done vote_result
      else (try_precommit attempt >>= λ precommit_result.
          done (if precommit_result.1 then precommit_result else (attempt, false)))

  -- `apply_action`; the other messages are `unreachable!` here.
  unfoldable pub apply_action : RoundAttempt → Message → Outcome RoundAttempt
  apply_action attempt (Message.vote_for _ _ candidate) =
      apply_vote_for_action desc round_state src_idx attempt_id attempt candidate
  apply_action attempt (Message.vote _ _ _) =
      apply_default_action attempt >>= λ result. done result.0
  apply_action attempt (Message.precommit _ _ _) =
      apply_default_action attempt >>= λ result. done result.0
  apply_action attempt (Message.empty _ _) =
      apply_default_action attempt >>= λ result. done result.0
  apply_action attempt _ = panic

  -- The messages of `create_action`
  precommit_or_empty : RoundAttempt → Option SentBlockPtr → Message
  precommit_or_empty attempt none =
      Message.empty round_state.sequence_number attempt.sequence_number
  precommit_or_empty attempt (some block) =
      Message.precommit round_state.sequence_number attempt.sequence_number (SentBlock.get_id block)

  vote_or_precommit : RoundAttempt → Option SentBlockPtr → Outcome Message
  unfolding precommit_or_empty
  vote_or_precommit attempt (some block) =
      done
        (Message.vote round_state.sequence_number attempt.sequence_number (SentBlock.get_id block))
  vote_or_precommit attempt none = do
    received ← check_precommit_received_from attempt src_idx
    voted_block ← if received then done none else get_voted_block desc attempt
    done (precommit_or_empty attempt voted_block)

  -- What the node sends next in this attempt.
  pub create_action : RoundAttempt → Outcome Message
  unfolding vote_or_precommit
  create_action attempt = do
    received ← check_vote_received_from attempt src_idx
    block_to_vote ←
        if received
        then done none
        else round_state.choose_block_to_vote src_idx attempt_id attempt.vote_for
    vote_or_precommit attempt block_to_vote

-- The comparisons of the pooled objects that a merge of attempts meets.
pub record AttemptPool : Type 0 where
  pub sent_block : Same SentBlock
  pub vote : Same VoteCandidate
  pub votes : Same (List VoteCandidate)

-- The choice between two `vote_for` blocks: the smaller identifier.
unfoldable pub merge_vote_for :
    Same SentBlock → Option SentBlockPtr → Option SentBlockPtr → Option SentBlockPtr
merge_vote_for s none right = right
merge_vote_for s (some l) none = some l
merge_vote_for s (some l) (some r) =
    if (option_same s).same l r
    then some l
    else if ltb (SentBlock.get_id l) (SentBlock.get_id r)
    then some l
    else some r

-- `impl Merge for RoundAttemptState`
pub merge : AttemptPool → RoundAttempt → RoundAttempt → Outcome RoundAttempt
unfolding merge_vote_for
merge pool left right = do
  assert (left.sequence_number == right.sequence_number)
  precommitted ← merge_bools left.precommitted right.precommitted
  votes ←
      SortedVector.merge_wrapped VoteCandidate.get_id pool.vote VoteCandidate.merge pool.votes
        left.votes right.votes
  done (record left {
    votes = votes;
    precommitted = precommitted;
    vote_for = merge_vote_for pool.sent_block left.vote_for right.vote_for;
  })
