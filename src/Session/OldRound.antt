-- ===== src/Session/OldRound.antt =====
-- validator-session/src/old_round.rs: a round whose block is committed. Approvals and signatures for
-- that block are still taken. A step that the code gives up returns the state that it was called with.
pub mod Invariant
pub mod Merging
use ton_labs_node.Base.{
  ℕ, Bool, true, false, List, [], ◌∷◌, ◌==◌, if◌then◌else◌, Option, none, some, is_some, Outcome,
  done, panic, at, assert, unwrap, ◌>>=◌, ◌>>◌,
}
use ton_labs_node.Session.Description.{SessionDescription, check_approve_signature}
use ton_labs_node.Session.Merge.{Same}
use ton_labs_node.Session.Vector.{change}
use ton_labs_node.Session.SentBlock
use ton_labs_node.Session.SentBlock.{SentBlockPtr, skip_round_candidate_blockid}
use ton_labs_node.Session.BlockCandidate.{BlockCandidate, Signature, merge_signatures}
use ton_labs_node.Session.Message
use ton_labs_node.Session.Message.{Message}
use ton_labs_node.Session.Round.{RoundState, get_block, check_block_is_signed}
use ton_labs_node.Session.Round.Actions.{signature_accepted}

pub record OldRoundState : Type 0 where
  pub sequence_number : ℕ
  pub block : SentBlockPtr
  pub signatures : List (Option Signature)
  pub approve_signatures : List (Option Signature)

abbrev pub get_block_id : OldRoundState → ℕ
get_block_id state = SentBlock.get_id state.block

unfoldable pub check_block_is_approved_by : OldRoundState → ℕ → Outcome Bool
check_block_is_approved_by state src_idx =
    at state.approve_signatures src_idx >>= λ signature. done (is_some signature)

unfoldable pub check_block_is_signed_by : OldRoundState → ℕ → Outcome Bool
check_block_is_signed_by state src_idx =
    at state.signatures src_idx >>= λ signature. done (is_some signature)

module _ (desc : SessionDescription) (src_idx : ℕ) where
  -- The signature of an approval of the committed block; the skip candidate has an empty one.
  unfoldable pub approval_accepted : SentBlockPtr → Signature → ℕ → Outcome Bool
  approval_accepted block signature candidate_id =
      if candidate_id == skip_round_candidate_blockid
      then done (elim signature [ [] ↦ true | x ∷ rest ↦ false ])
      else (unwrap block >>= λ sent.
          check_approve_signature desc sent.root_hash sent.file_hash src_idx signature)

  unfoldable pub add_approval : OldRoundState → Signature → Outcome OldRoundState
  add_approval state signature = do
    approve_signatures ← change state.approve_signatures src_idx (some signature)
    done (record state { approve_signatures = approve_signatures })

  unfoldable pub apply_approved_block_action : OldRoundState → ℕ → Signature → Outcome OldRoundState
  unfolding approval_accepted add_approval check_block_is_approved_by
  apply_approved_block_action state candidate_id signature =
      if candidate_id == get_block_id state
      then (check_block_is_approved_by state src_idx >>= λ approved.
          if approved
          then done state
          else (approval_accepted state.block signature candidate_id >>= λ accepted.
              if accepted then add_approval state signature else done state))
      else done state

  unfoldable pub add_signature : OldRoundState → Signature → Outcome OldRoundState
  add_signature state signature = do
    signatures ← change state.signatures src_idx (some signature)
    done (record state { signatures = signatures })

  -- The signature is checked before the entry of the validator is.
  unfoldable pub apply_committed_block_action :
      OldRoundState → ℕ → Signature → Outcome OldRoundState
  unfolding add_signature check_block_is_signed_by signature_accepted
  apply_committed_block_action state candidate_id signature =
      if candidate_id == get_block_id state
      then (signature_accepted desc src_idx state.block signature candidate_id >>= λ accepted.
          if accepted
          then (check_block_is_signed_by state src_idx >>= λ signed.
              if signed then done state else add_signature state signature)
          else done state)
      else done state

  -- `apply_action_dispatch`: only approvals and commits are expected.
  unfoldable pub apply_action : OldRoundState → Message → Outcome OldRoundState
  unfolding apply_approved_block_action apply_committed_block_action
  apply_action state (Message.approved_block _ candidate signature) =
      apply_approved_block_action state candidate signature
  apply_action state (Message.commit _ candidate signature) =
      apply_committed_block_action state candidate signature
  apply_action state message = done state

module _ (pool : Same Signature) where
  -- `impl Merge for OldRoundState`
  unfoldable pub merge : OldRoundState → OldRoundState → Outcome OldRoundState
  merge left right = do
    assert (left.sequence_number == right.sequence_number)
    signatures ← merge_signatures pool left.signatures right.signatures
    approve_signatures ← merge_signatures pool left.approve_signatures right.approve_signatures
    done (record left { signatures = signatures; approve_signatures = approve_signatures })

  unfoldable merge_approvals :
      List (Option Signature) → Option BlockCandidate → Outcome (List (Option Signature))
  merge_approvals approve_signatures none = done approve_signatures
  merge_approvals approve_signatures (some signed_block) =
      merge_signatures pool approve_signatures signed_block.approved_by

  -- The merge with a state of the same round in which it is not yet old.
  unfoldable pub merge_round : OldRoundState → RoundState → Outcome OldRoundState
  unfolding merge_approvals
  merge_round left right = do
    assert (left.sequence_number == right.sequence_number)
    signatures ← merge_signatures pool left.signatures right.signatures
    approve_signatures ←
        merge_approvals left.approve_signatures (get_block right (get_block_id left))
    done (record left { signatures = signatures; approve_signatures = approve_signatures })

unfoldable pub create_from_round : SessionDescription → RoundState → Outcome OldRoundState
create_from_round desc round = do
  block ← unwrap round.precommitted_block
  signed ← check_block_is_signed desc round
  assert signed
  block_candidate ← unwrap (get_block round (SentBlock.get_id block))
  done (record {
    sequence_number = round.sequence_number;
    block = block;
    signatures = round.signatures;
    approve_signatures = block_candidate.approved_by;
  })
