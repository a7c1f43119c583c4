-- ===== src/Session/Round/Examples.antt =====
-- A round of four validators from the first message to the signed block, for the tests
-- (round.rs).
use ton_labs_node.Base.{
  ℕ, ◌≡◌, refl, Bool, true, false, List, [], ◌∷◌, get_elem?, Option, none, some, done, arith, subst,
}
use ton_labs_node.Session.Description.{
  weigh, candidate_id, get_source_public_key_hash, get_node_priority, check_signature,
  check_approve_signature,
}
use ton_labs_node.Session.Description.Examples.{heavy, heavy-IsWeighed, heavy-IsSized}
use ton_labs_node.Session.Merge.{never_same}
use ton_labs_node.Session.Vector.{change, create_wrapper, wrapped_change, wrapped_modify, modify}
use ton_labs_node.Session.SortedVector
use ton_labs_node.Session.SortedVector.{iter, search}
use ton_labs_node.Session.SortedVector.Order.{find}
use ton_labs_node.Session.SentBlock
use ton_labs_node.Session.SentBlock.{SentBlockPtr}
use ton_labs_node.Session.VoteCandidate
use ton_labs_node.Session.BlockCandidate
use ton_labs_node.Session.BlockCandidate.{Signature}
use ton_labs_node.Session.Message.{Message}
use ton_labs_node.Session.Attempt
use ton_labs_node.Session.Attempt.{RoundAttempt}
use ton_labs_node.Session.Round.{
  RoundState, create_current_round, check_block_is_signed, choose_block_to_vote, get_attempt,
  sent_by, candidate_in,
}
use ton_labs_node.Session.Round.Actions.{
  RoundPool, apply_action, make_one, signature_accepted, approved_same_source,
}
use ton_labs_node.Session.Round.Attempts.{number, get_attempt-find}
use ton_labs_node.Session.Round.Invariant.{IsConfigured, IsRound, LockedIn}
use ton_labs_node.Session.Round.Voting.{choose_block_to_vote-total}
use ton_labs_node.Session.Round.Steps.{apply_action-IsRound, make_one-IsRound}
use ton_labs_node.Session.Round.Outcomes.{
  RoundReached, create, message, signed-LockedIn, RoundReached-IsRound,
}

abbrev pub pool : RoundPool
pool = record { vote = never_same; candidate = never_same; attempt = never_same }

pub heavy-IsConfigured : IsConfigured heavy
heavy-IsConfigured = record { candidates = omega arith; named = λ i r f c e. ground arith }

-- The block that it proposes in the round 0.
abbrev pub block : SentBlockPtr
block = some (record {
  id = 101002;
  source_id = 0;
  root_hash = 1;
  file_hash = 2;
  collated_data_file_hash = 3;
})

abbrev pub none_of_four : List (Option Signature)
none_of_four = none ∷ none ∷ none ∷ none ∷ []

abbrev pub first_signed : List (Option Signature)
first_signed = some (1 ∷ []) ∷ none ∷ none ∷ none ∷ []

abbrev pub started : RoundState
started = record {
  precommitted_block = none;
  sequence_number = 0;
  first_attempt = some (0 ∷ 0 ∷ 0 ∷ 0 ∷ []);
  last_precommit = some (0 ∷ 0 ∷ 0 ∷ 0 ∷ []);
  sent_blocks = none;
  signatures = none_of_four;
  attempts = none;
}

abbrev proposed : RoundState
proposed = record started {
  first_attempt = some (5 ∷ 0 ∷ 0 ∷ 0 ∷ []);
  sent_blocks = some (record { block = block; approved_by = none_of_four } ∷ []);
}

abbrev pub approved : RoundState
approved = record proposed {
  sent_blocks = some (record { block = block; approved_by = first_signed } ∷ []);
}

abbrev attempt_with : List Bool → RoundAttempt
attempt_with precommits = record {
  sequence_number = 5;
  votes = some (record { block = block; voted_by = true ∷ false ∷ false ∷ false ∷ [] } ∷ []);
  precommitted = precommits;
  vote_for = none;
}

abbrev pub voted : RoundState
voted = record approved { attempts = some (attempt_with (false ∷ false ∷ false ∷ false ∷ []) ∷ []) }

abbrev locked : RoundState
locked = record approved {
  precommitted_block = some block;
  last_precommit = some (5 ∷ 0 ∷ 0 ∷ 0 ∷ []);
  attempts = some (attempt_with (true ∷ false ∷ false ∷ false ∷ []) ∷ []);
}

abbrev signed : RoundState
signed = record locked { signatures = first_signed }

pub started_lem : create_current_round heavy 0 ≡ started
unfolding create_current_round create_wrapper
started_lem = refl

proposes : apply_action heavy pool 0 5 started (Message.submitted_block 0 1 2 3) ≡ done proposed
unfolding apply_action search SortedVector.push SentBlock.create candidate_id
    get_source_public_key_hash get_node_priority BlockCandidate.push
    BlockCandidate.create_unapproved BlockCandidate.check_block_is_approved get_attempt
    choose_block_to_vote Attempt.apply_action Attempt.apply_default_action Attempt.try_vote
    Attempt.try_precommit Attempt.create_empty VoteCandidate.create_unvoted VoteCandidate.push
    VoteCandidate.check_block_is_voted Attempt.get_candidate Attempt.first_voted
    Attempt.received_from Attempt.check_attempt_is_precommitted change wrapped_change wrapped_modify
    modify sent_by candidate_in approved_same_source check_signature check_approve_signature
    signature_accepted weigh
proposes = refl

approves :
    apply_action heavy pool 0 5 proposed (Message.approved_block 0 101002 (1 ∷ [])) ≡ done approved
unfolding apply_action search SortedVector.push SentBlock.create candidate_id
    get_source_public_key_hash get_node_priority BlockCandidate.push
    BlockCandidate.create_unapproved BlockCandidate.check_block_is_approved get_attempt
    choose_block_to_vote Attempt.apply_action Attempt.apply_default_action Attempt.try_vote
    Attempt.try_precommit Attempt.create_empty VoteCandidate.create_unvoted VoteCandidate.push
    VoteCandidate.check_block_is_voted Attempt.get_candidate Attempt.first_voted
    Attempt.received_from Attempt.check_attempt_is_precommitted change wrapped_change wrapped_modify
    modify sent_by candidate_in approved_same_source check_signature check_approve_signature
    signature_accepted weigh
approves = refl

votes : apply_action heavy pool 0 5 approved (Message.vote 0 5 101002) ≡ done voted
unfolding apply_action search SortedVector.push SentBlock.create candidate_id
    get_source_public_key_hash get_node_priority BlockCandidate.push
    BlockCandidate.create_unapproved BlockCandidate.check_block_is_approved get_attempt
    choose_block_to_vote Attempt.apply_action Attempt.apply_default_action Attempt.try_vote
    Attempt.try_precommit Attempt.create_empty VoteCandidate.create_unvoted VoteCandidate.push
    VoteCandidate.check_block_is_voted Attempt.get_candidate Attempt.first_voted
    Attempt.received_from Attempt.check_attempt_is_precommitted change wrapped_change wrapped_modify
    modify sent_by candidate_in approved_same_source check_signature check_approve_signature
    signature_accepted weigh
votes = refl

precommits : apply_action heavy pool 0 5 voted (Message.precommit 0 5 101002) ≡ done locked
unfolding apply_action search SortedVector.push SentBlock.create candidate_id
    get_source_public_key_hash get_node_priority BlockCandidate.push
    BlockCandidate.create_unapproved BlockCandidate.check_block_is_approved get_attempt
    choose_block_to_vote Attempt.apply_action Attempt.apply_default_action Attempt.try_vote
    Attempt.try_precommit Attempt.create_empty VoteCandidate.create_unvoted VoteCandidate.push
    VoteCandidate.check_block_is_voted Attempt.get_candidate Attempt.first_voted
    Attempt.received_from Attempt.check_attempt_is_precommitted change wrapped_change wrapped_modify
    modify sent_by candidate_in approved_same_source check_signature check_approve_signature
    signature_accepted weigh
precommits = refl

commits : apply_action heavy pool 0 5 locked (Message.commit 0 101002 (1 ∷ [])) ≡ done signed
unfolding apply_action search SortedVector.push SentBlock.create candidate_id
    get_source_public_key_hash get_node_priority BlockCandidate.push
    BlockCandidate.create_unapproved BlockCandidate.check_block_is_approved get_attempt
    choose_block_to_vote Attempt.apply_action Attempt.apply_default_action Attempt.try_vote
    Attempt.try_precommit Attempt.create_empty VoteCandidate.create_unvoted VoteCandidate.push
    VoteCandidate.check_block_is_voted Attempt.get_candidate Attempt.first_voted
    Attempt.received_from Attempt.check_attempt_is_precommitted change wrapped_change wrapped_modify
    modify sent_by candidate_in approved_same_source check_signature check_approve_signature
    signature_accepted weigh
commits = refl

decided : check_block_is_signed heavy signed ≡ done true
unfolding check_block_is_signed weigh
decided = refl

signed-Reached : RoundReached heavy pool signed
signed-Reached =
    message 0 5 (Message.commit 0 101002 (1 ∷ [])) (omega arith)
      (message 0 5 (Message.precommit 0 5 101002) (omega arith)
        (message 0 5 (Message.vote 0 5 101002) (omega arith)
          (message 0 5 (Message.approved_block 0 101002 (1 ∷ [])) (omega arith)
            (message 0 5 (Message.submitted_block 0 1 2 3) (omega arith)
              (subst (RoundReached heavy pool) started_lem (create 0)) proposes)
            approves)
          votes)
        precommits)
      commits

pub approved-IsRound : IsRound heavy approved
approved-IsRound =
    RoundReached-IsRound heavy heavy-IsWeighed heavy-IsSized heavy-IsConfigured pool (
      message 0 5 (Message.approved_block 0 101002 (1 ∷ [])) (omega arith)
        (message 0 5 (Message.submitted_block 0 1 2 3) (omega arith)
          (subst (RoundReached heavy pool) started_lem (create 0)) proposes)
        approves)

pub voted-IsRound : IsRound heavy voted
voted-IsRound = RoundReached-IsRound heavy heavy-IsWeighed heavy-IsSized heavy-IsConfigured pool (
    message 0 5 (Message.vote 0 5 101002) (omega arith)
      (message 0 5 (Message.approved_block 0 101002 (1 ∷ [])) (omega arith)
        (message 0 5 (Message.submitted_block 0 1 2 3) (omega arith)
          (subst (RoundReached heavy pool) started_lem (create 0)) proposes)
        approves)
      votes)

signed-LockedIn_example :
    (b : SentBlockPtr) × (some block ≡ some b)
    × LockedIn heavy (iter signed.attempts) b
    × ((i : ℕ) (g : Signature)
        → get_elem? first_signed i ≡ some (some g)
        → signature_accepted heavy i b g (SentBlock.get_id b) ≡ done true)
signed-LockedIn_example =
    signed-LockedIn heavy heavy-IsWeighed heavy-IsSized heavy-IsConfigured pool signed
      signed-Reached decided

apply_action-IsRound_example :
    (t : RoundState) × (apply_action heavy pool 0 5 voted (Message.precommit 0 5 101002) ≡ done t)
    × IsRound heavy t
    × (t.sequence_number ≡ 0)
    × ((b : SentBlockPtr) → none ≡ some b → t.precommitted_block ≡ some b)
apply_action-IsRound_example =
    apply_action-IsRound heavy heavy-IsWeighed heavy-IsSized heavy-IsConfigured pool 0 5
      (omega arith) voted voted-IsRound (Message.precommit 0 5 101002)

make_one-IsRound_example :
    (t : RoundState) × (made : Bool) × (make_one heavy pool 1 5 voted ≡ done (t, made))
    × IsRound heavy t
    × ((b : SentBlockPtr) → none ≡ some b → t.precommitted_block ≡ some b)
make_one-IsRound_example =
    make_one-IsRound heavy heavy-IsWeighed heavy-IsSized heavy-IsConfigured pool 1 5 (omega arith)
      voted voted-IsRound

choose_block_to_vote-total_example :
    (o : Option SentBlockPtr) × (choose_block_to_vote heavy voted 1 5 none ≡ done o)
choose_block_to_vote-total_example =
    choose_block_to_vote-total heavy heavy-IsWeighed heavy-IsConfigured voted voted-IsRound 1
      (omega arith) 5 none

get_attempt-find_example : get_attempt voted.attempts 5 ≡ done (find number 5 (iter voted.attempts))
get_attempt-find_example = get_attempt-find voted.attempts 5 (tt, tt)
