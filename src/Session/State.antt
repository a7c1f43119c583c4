-- ===== src/Session/State.antt =====
-- validator-session/src/session_state.rs: the state of a session. It has the time of every
-- validator, the current round, and the old rounds with their committed blocks.
pub mod Invariant
pub mod Steps
pub mod Making
pub mod Outcomes
pub mod Committing
pub mod Examples
use ton_labs_node.Base.{
  ℕ, zero, suc, ◌+◌, Bool, true, false, not, ◌&&◌, List, [], ◌∷◌, replicate, length, max, ◌==◌, ltb,
  leb, if◌then◌else◌, Option, none, some, u32, Outcome, done, panic, at, assert, ◌>>=◌, ◌>>◌,
}
use ton_labs_node.Session.Description.{SessionDescription, get_total_nodes}
use ton_labs_node.Session.Merge.{Same}
use ton_labs_node.Session.Vector
use ton_labs_node.Session.Vector.{change, wrapped_at, wrapped_change, wrapped_push}
use ton_labs_node.Session.SortedVector.{iter}
use ton_labs_node.Session.SentBlock.{SentBlockPtr}
use ton_labs_node.Session.BlockCandidate.{Signature}
use ton_labs_node.Session.Message.{Message, get_round_id}
use ton_labs_node.Session.Round
use ton_labs_node.Session.Round.{RoundState, create_current_round, check_block_is_signed}
use ton_labs_node.Session.Round.Actions
use ton_labs_node.Session.Round.Actions.{RoundPool}
use ton_labs_node.Session.Round.Merging
use ton_labs_node.Session.Round.Merging.{MergePool, number_same}
use ton_labs_node.Session.OldRound
use ton_labs_node.Session.OldRound.{OldRoundState, create_from_round}

pub record SessionState : Type 0 where
  pub attempt_ids : List ℕ
  pub current_round : RoundState
  pub old_rounds : Option (List OldRoundState)

-- `MIN_ATTEMPT_ID`
abbrev pub min_attempt_id : ℕ
min_attempt_id = 1024

abbrev pub get_ts : SessionState → ℕ → Outcome ℕ
get_ts state src_idx = at state.attempt_ids src_idx

abbrev pub get_current_round_sequence_number : SessionState → ℕ
get_current_round_sequence_number state = state.current_round.sequence_number

get_block : SessionState → ℕ → Option SentBlockPtr
get_block state block_id = elim (Round.get_block state.current_round block_id) [
  | none ↦ none
  | some block_candidate ↦ some block_candidate.block
]

-- What is kept of an old round, when there is one with the number.
module _ {ℓ} {A : Type ℓ} (field : OldRoundState → A) where
  unfoldable pub of_old_round : SessionState → ℕ → Outcome (Option A)
  of_old_round state number =
      if ltb number (length (iter state.old_rounds))
      then (wrapped_at state.old_rounds number >>= λ old. done (some (field old)))
      else done none

abbrev pub get_committed_block : SessionState → ℕ → Outcome (Option SentBlockPtr)
get_committed_block state round_seqno = of_old_round (λ old. old.block) state round_seqno

abbrev pub get_committed_block_signatures :
    SessionState → ℕ → Outcome (Option (List (Option Signature)))
get_committed_block_signatures state sequence_number =
    of_old_round (λ old. old.signatures) state sequence_number

abbrev pub get_committed_block_approve_signatures :
    SessionState → ℕ → Outcome (Option (List (Option Signature)))
get_committed_block_approve_signatures state sequence_number =
    of_old_round (λ old. old.approve_signatures) state sequence_number

pub choose_block_to_sign : SessionState → ℕ → Outcome (Option SentBlockPtr)
choose_block_to_sign state src_idx = do
  signed ← Round.check_block_is_signed_by state.current_round src_idx
  done (if signed then none else Round.choose_block_to_sign state.current_round)

-- The attempt of a message is no earlier than the time of its sender, and than the least attempt.
unfoldable pub clamped : ℕ → ℕ → ℕ
clamped current attempt_id =
    let later = if ltb attempt_id current then current else attempt_id in
    if ltb later min_attempt_id then min_attempt_id else later

module _ (desc : SessionDescription) where
  -- A signed round becomes an old round, and a new one begins.
  unfoldable pub switched : SessionState → Outcome SessionState
  unfolding wrapped_push
  switched state = do
    old_round ← create_from_round desc state.current_round
    assert (u32 (length (iter state.old_rounds)) == old_round.sequence_number)
    done (record state {
      current_round = create_current_round desc (u32 (state.current_round.sequence_number + 1));
      old_rounds = wrapped_push state.old_rounds old_round;
    })

  unfoldable pub switched_if_signed : SessionState → Outcome SessionState
  unfolding switched
  switched_if_signed state = check_block_is_signed desc state.current_round >>= λ signed.
      if signed then switched state else done state

  module _ (pool : RoundPool) (src_idx : ℕ) where
    -- A message of the current round.
    unfoldable pub apply_current : SessionState → ℕ → Message → Outcome SessionState
    unfolding switched_if_signed
    apply_current state attempt_id message = do
      round ← Actions.apply_action desc pool src_idx attempt_id state.current_round message
      switched_if_signed (record state { current_round = round })

    -- A message of an old round.
    unfoldable pub apply_old : SessionState → ℕ → Message → Outcome SessionState
    apply_old state round_id message = do
      old ← wrapped_at state.old_rounds round_id
      new_old_round ← OldRound.apply_action desc src_idx old message
      old_rounds ← wrapped_change state.old_rounds round_id new_old_round
      done (record state { old_rounds = old_rounds })

    -- A message of a round that has not begun changes only the time.
    unfoldable pub apply_in_round : SessionState → ℕ → ℕ → Message → Outcome SessionState
    unfolding apply_current apply_old
    apply_in_round state attempt_id round_id message =
        let current = state.current_round.sequence_number in
        if ltb current round_id
        then done state
        else if round_id == current
        then apply_current state attempt_id message
        else apply_old state round_id message

    unfoldable pub apply_action : SessionState → ℕ → Message → Outcome SessionState
    unfolding clamped apply_in_round get_round_id
    apply_action state attempt_id message = do
      current ← at state.attempt_ids src_idx
      let clamped_id = clamped current attempt_id
      attempt_ids ← change state.attempt_ids src_idx clamped_id
      apply_in_round (record state { attempt_ids = attempt_ids }) clamped_id (get_round_id message)
          message

    abbrev create_action : SessionState → ℕ → Outcome Message
    create_action state attempt_id =
        Actions.create_action desc pool src_idx attempt_id state.current_round

    -- The times after the node has brought its own one forward.
    unfoldable pub updated_time : List ℕ → ℕ → ℕ → Outcome (List ℕ × Bool)
    updated_time attempt_ids current attempt_id =
        if leb attempt_id current
        then done (attempt_ids, false)
        else (change attempt_ids src_idx attempt_id >>= λ changed. done (changed, true))

    unfoldable pub make_one : SessionState → ℕ → Outcome (SessionState × Bool)
    unfolding updated_time clamped
    make_one state attempt_id = do
      current ← at state.attempt_ids src_idx
      let clamped_id = clamped current attempt_id
      time ← updated_time state.attempt_ids current clamped_id
      made ← Actions.make_one desc pool src_idx clamped_id state.current_round
      if not made.1 && not time.1 then done (state, false) else do
        signed ← check_block_is_signed desc made.0
        assert (not signed)
        done (record state { attempt_ids = time.0; current_round = made.0 }, true)

    -- The loop of `make_all`: nothing is returned when the fuel runs out.
    unfoldable pub make_all : ℕ → SessionState → ℕ → Outcome (Option SessionState)
    unfolding make_one
    make_all zero state attempt_id = done none
    make_all (suc fuel) state attempt_id = make_one state attempt_id >>= λ made.
        let rest = make_all fuel made.0 attempt_id in if made.1 then rest else done (some made.0)

  unfoldable pub create_empty : SessionState
  create_empty = record {
    attempt_ids = replicate (get_total_nodes desc) 0;
    current_round = create_current_round desc 0;
    old_rounds = none;
  }

-- The comparisons of the pooled objects that a merge of sessions meets.
pub record SessionMergePool : Type 0 where
  pub in_round : MergePool
  pub old_round : Same OldRoundState
  pub old_rounds : Same (List OldRoundState)

module _ (pool : SessionMergePool) (desc : SessionDescription) where
  -- The state of a round that has ended on the other side goes to the old round.
  merge_ended : Option (List OldRoundState) → RoundState → Outcome (Option (List OldRoundState))
  merge_ended old_rounds ended = do
    old_round ← wrapped_at old_rounds ended.sequence_number
    merged ← OldRound.merge_round pool.in_round.signature old_round ended
    wrapped_change old_rounds ended.sequence_number merged

  -- The current round is the later one of both.
  merge_current :
      Option (List OldRoundState)
      → RoundState
      → RoundState
      → Outcome (RoundState × Option (List OldRoundState))
  unfolding merge_ended
  merge_current old_rounds left right =
      if ltb left.sequence_number right.sequence_number
      then (merge_ended old_rounds left >>= λ merged. done (right, merged))
      else if ltb right.sequence_number left.sequence_number
      then (merge_ended old_rounds right >>= λ merged. done (left, merged))
      else (Merging.merge pool.in_round desc left right >>= λ round. done (round, old_rounds))

  -- A signed round has as many old rounds before it as its number says.
  merge_switched : SessionState → Outcome SessionState
  unfolding switched
  merge_switched state = check_block_is_signed desc state.current_round >>= λ signed.
      if signed
      then (assert (state.current_round.sequence_number == length (iter state.old_rounds))
          >> switched desc state)
      else done state

  pub merge : SessionState → SessionState → Outcome SessionState
  unfolding merge_current merge_switched
  merge left right = do
    assert (length left.attempt_ids == get_total_nodes desc)
    assert (length right.attempt_ids == get_total_nodes desc)
    attempt_ids ←
        Vector.merge_impl number_same false (λ l r. done (max l r)) left.attempt_ids
          right.attempt_ids
    old_rounds ←
        Vector.merge_wrapped pool.old_round false (OldRound.merge pool.in_round.signature)
          pool.old_rounds left.old_rounds right.old_rounds
    merged ← merge_current old_rounds left.current_round right.current_round
    merge_switched
        (record { attempt_ids = attempt_ids; current_round = merged.0; old_rounds = merged.1 })
