-- ===== src/Session/State/Examples.antt =====
-- A session of four validators from its beginning to the first committed block, for the tests
-- (session_state.rs).
use ton_labs_node.Base.{
  ℕ, ◌+◌, ◌<◌, ◌≤◌, ◌≡◌, refl, Bool, true, false, List, [], ◌∷◌, get_elem?, Option, none, some,
  is_some, done, arith, subst,
}
use ton_labs_node.Session.Description.{
  weigh, candidate_id, get_source_public_key_hash, get_node_priority, check_signature,
  check_approve_signature,
}
use ton_labs_node.Session.Description.Examples.{heavy, heavy-IsWeighed, heavy-IsSized}
use ton_labs_node.Session.Vector.{
  change, create_wrapper, wrapped_change, wrapped_modify, modify, wrapped_push,
}
use ton_labs_node.Session.SortedVector
use ton_labs_node.Session.SortedVector.{iter, search}
use ton_labs_node.Session.SentBlock
use ton_labs_node.Session.SentBlock.{SentBlockPtr}
use ton_labs_node.Session.VoteCandidate
use ton_labs_node.Session.BlockCandidate
use ton_labs_node.Session.BlockCandidate.{Signature}
use ton_labs_node.Session.Message.{Message}
use ton_labs_node.Session.Attempt
use ton_labs_node.Session.Attempt.{RoundAttempt}
use ton_labs_node.Session.Round.{
  RoundState, create_current_round, check_block_is_signed, choose_block_to_vote, get_attempt,
  sent_by, candidate_in,
}
use ton_labs_node.Session.Round.Actions
use ton_labs_node.Session.Round.Actions.{signature_accepted, approved_same_source}
use ton_labs_node.Session.Round.Examples.{
  pool, heavy-IsConfigured, block, first_signed, none_of_four, started,
}
use ton_labs_node.Session.OldRound.{OldRoundState, create_from_round}
use ton_labs_node.Session.OldRound
use ton_labs_node.Session.OldRound.{merge_round}
use ton_labs_node.Session.OldRound.Invariant.{IsOldRound}
use ton_labs_node.Session.OldRound.Merging.{merge-StaysCommitted, merge_round-StaysCommitted}
use ton_labs_node.Session.State.{
  SessionState, apply_action, create_empty, make_one, make_all, of_old_round, get_committed_block,
  get_committed_block_signatures,
}
use ton_labs_node.Session.State.Invariant.{IsSession, Extends, create_empty-IsSession}
use ton_labs_node.Session.State.Steps.{apply_action-IsSession}
use ton_labs_node.Session.State.Making.{make_all-Settles}
use ton_labs_node.Session.State.Outcomes.{
  Follows, start, message, Follows-Extends, get_committed_block-stays, get_committed_block-signed,
}
use ton_labs_node.Session.State.Committing.{commit-advances}
use ton_labs_node.Session.Merge.{never_same}

-- The rounds of the session.
abbrev proposed : RoundState
proposed = record started {
  first_attempt = some (1024 ∷ 0 ∷ 0 ∷ 0 ∷ []);
  sent_blocks = some (record { block = block; approved_by = none_of_four } ∷ []);
}

abbrev approved : RoundState
approved = record proposed {
  sent_blocks = some (record { block = block; approved_by = first_signed } ∷ []);
}

abbrev attempt_with : List Bool → RoundAttempt
attempt_with precommits = record {
  sequence_number = 1024;
  votes = some (record { block = block; voted_by = true ∷ false ∷ false ∷ false ∷ [] } ∷ []);
  precommitted = precommits;
  vote_for = none;
}

abbrev voted : RoundState
voted = record approved { attempts = some (attempt_with (false ∷ false ∷ false ∷ false ∷ []) ∷ []) }

abbrev locked : RoundState
locked = record approved {
  precommitted_block = some block;
  last_precommit = some (1024 ∷ 0 ∷ 0 ∷ 0 ∷ []);
  attempts = some (attempt_with (true ∷ false ∷ false ∷ false ∷ []) ∷ []);
}

abbrev session_of : RoundState → SessionState
session_of round = record {
  attempt_ids = 1024 ∷ 0 ∷ 0 ∷ 0 ∷ [];
  current_round = round;
  old_rounds = none;
}

abbrev fresh : SessionState
fresh = record (session_of started) { attempt_ids = 0 ∷ 0 ∷ 0 ∷ 0 ∷ [] }

abbrev committed : SessionState
committed = record {
  attempt_ids = 1024 ∷ 0 ∷ 0 ∷ 0 ∷ [];
  current_round = record started { sequence_number = 1 };
  old_rounds = some (
      record {
        sequence_number = 0;
        block = block;
        signatures = first_signed;
        approve_signatures = first_signed;
      }
      ∷ []);
}

fresh_lem : create_empty heavy ≡ fresh
unfolding create_empty create_current_round create_wrapper
fresh_lem = refl

proposes :
    apply_action heavy pool 0 fresh 5 (Message.submitted_block 0 1 2 3) ≡ done (session_of proposed)
unfolding apply_action Actions.apply_action search SortedVector.push SentBlock.create candidate_id
    get_source_public_key_hash get_node_priority BlockCandidate.push
    BlockCandidate.create_unapproved BlockCandidate.check_block_is_approved change wrapped_change
    sent_by candidate_in weigh check_block_is_signed
proposes = refl

approves :
    apply_action heavy pool 0 (session_of proposed) 5 (Message.approved_block 0 101002 (1 ∷ []))
    ≡ done (session_of approved)
unfolding apply_action Actions.apply_action search SortedVector.push BlockCandidate.push
    BlockCandidate.check_block_is_approved change wrapped_change candidate_in approved_same_source
    check_approve_signature weigh check_block_is_signed
approves = refl

votes :
    apply_action heavy pool 0 (session_of approved) 5 (Message.vote 0 5 101002)
    ≡ done (session_of voted)
unfolding apply_action Actions.apply_action search SortedVector.push get_node_priority
    BlockCandidate.check_block_is_approved get_attempt choose_block_to_vote Attempt.apply_action
    Attempt.apply_default_action Attempt.try_vote Attempt.try_precommit Attempt.create_empty
    VoteCandidate.create_unvoted VoteCandidate.push VoteCandidate.check_block_is_voted
    Attempt.get_candidate Attempt.first_voted Attempt.received_from
    Attempt.check_attempt_is_precommitted change wrapped_change wrapped_modify modify candidate_in
    weigh check_block_is_signed
votes = refl

precommits :
    apply_action heavy pool 0 (session_of voted) 5 (Message.precommit 0 5 101002)
    ≡ done (session_of locked)
unfolding apply_action Actions.apply_action search SortedVector.push get_node_priority
    BlockCandidate.check_block_is_approved get_attempt choose_block_to_vote Attempt.apply_action
    Attempt.apply_default_action Attempt.try_vote Attempt.try_precommit Attempt.create_empty
    VoteCandidate.create_unvoted VoteCandidate.push VoteCandidate.check_block_is_voted
    Attempt.get_candidate Attempt.first_voted Attempt.received_from
    Attempt.check_attempt_is_precommitted change wrapped_change wrapped_modify modify candidate_in
    weigh check_block_is_signed
precommits = refl

commits :
    apply_action heavy pool 0 (session_of locked) 5 (Message.commit 0 101002 (1 ∷ []))
    ≡ done committed
unfolding apply_action Actions.apply_action create_from_round candidate_in change wrapped_change
    signature_accepted check_signature weigh check_block_is_signed create_current_round
    create_wrapper wrapped_push
commits = refl

committed-Follows : Follows heavy pool (create_empty heavy) committed
committed-Follows =
    message 0 5 (Message.commit 0 101002 (1 ∷ [])) (omega arith) (omega arith)
      (message 0 5 (Message.precommit 0 5 101002) (omega arith) (omega arith)
        (message 0 5 (Message.vote 0 5 101002) (omega arith) (omega arith)
          (message 0 5 (Message.approved_block 0 101002 (1 ∷ [])) (omega arith) (omega arith)
            (message 0 5 (Message.submitted_block 0 1 2 3) (omega arith) (omega arith)
              (subst (Follows heavy pool (create_empty heavy)) fresh_lem start) proposes)
            approves)
          votes)
        precommits)
      commits

committed-IsSession : IsSession heavy committed
committed-IsSession =
    (Follows-Extends heavy heavy-IsWeighed heavy-IsSized heavy-IsConfigured pool committed-Follows
      (create_empty-IsSession heavy heavy-IsWeighed heavy-IsSized)).0

approved-Follows : Follows heavy pool (create_empty heavy) (session_of approved)
approved-Follows =
    message 0 5 (Message.approved_block 0 101002 (1 ∷ [])) (omega arith) (omega arith)
      (message 0 5 (Message.submitted_block 0 1 2 3) (omega arith) (omega arith)
        (subst (Follows heavy pool (create_empty heavy)) fresh_lem start) proposes)
      approves

approved-IsSession : IsSession heavy (session_of approved)
approved-IsSession =
    (Follows-Extends heavy heavy-IsWeighed heavy-IsSized heavy-IsConfigured pool approved-Follows
      (create_empty-IsSession heavy heavy-IsWeighed heavy-IsSized)).0

locked-Follows : Follows heavy pool (create_empty heavy) (session_of locked)
locked-Follows =
    message 0 5 (Message.precommit 0 5 101002) (omega arith) (omega arith)
      (message 0 5 (Message.vote 0 5 101002) (omega arith) (omega arith) approved-Follows votes)
      precommits

locked-IsSession : IsSession heavy (session_of locked)
locked-IsSession =
    (Follows-Extends heavy heavy-IsWeighed heavy-IsSized heavy-IsConfigured pool locked-Follows
      (create_empty-IsSession heavy heavy-IsWeighed heavy-IsSized)).0

-- A late commit of the second validator.
abbrev late : Message
late = Message.commit 0 101002 (2 ∷ [])

apply_action-IsSession_example :
    (t : SessionState) × (apply_action heavy pool 1 committed 7 late ≡ done t)
    × IsSession heavy t
    × Extends committed t
apply_action-IsSession_example =
    apply_action-IsSession heavy heavy-IsWeighed heavy-IsSized heavy-IsConfigured pool 1
      (omega arith) committed committed-IsSession (omega arith) 7 late

abbrev after_late : SessionState
after_late = apply_action-IsSession_example.0

get_committed_block-stays_example : get_committed_block after_late 0 ≡ done (some block)
get_committed_block-stays_example =
    get_committed_block-stays heavy heavy-IsWeighed heavy-IsSized heavy-IsConfigured pool committed
      after_late committed-IsSession
      (message 1 7 late (omega arith) (omega arith) start apply_action-IsSession_example.1) 0 block
      (unfold of_old_round in refl)

get_committed_block-signed_example :
    (0 < 1
      → (b : SentBlockPtr) × (signatures : List (Option Signature)) × (get_committed_block committed
            0
          ≡ done (some b))
        × (get_committed_block_signatures committed 0 ≡ done (some signatures))
        × (weigh is_some heavy signatures ≡ done true)
        × ((i : ℕ) (g : Signature)
            → get_elem? signatures i ≡ some (some g)
            → signature_accepted heavy i b g (SentBlock.get_id b) ≡ done true))
    × (1 ≤ 0 → get_committed_block committed 0 ≡ done none)
get_committed_block-signed_example =
    get_committed_block-signed heavy heavy-IsWeighed heavy-IsSized heavy-IsConfigured pool committed
      committed-Follows 0

make_all-Settles_example :
    (t : SessionState) × (make_all heavy pool 1 5 (session_of approved) 3 ≡ done (some t))
    × IsSession heavy t
    × (t.old_rounds ≡ none)
    × (make_one heavy pool 1 t 3 ≡ done (t, false))
make_all-Settles_example =
    make_all-Settles heavy heavy-IsWeighed heavy-IsSized heavy-IsConfigured pool 1 (omega arith)
      (session_of approved) approved-IsSession 3 5 (omega arith)

accepts : signature_accepted heavy 0 block (1 ∷ []) 101002 ≡ done true
unfolding signature_accepted check_signature
accepts = refl

completes : weigh is_some heavy first_signed ≡ done true
unfolding weigh
completes = refl

commit-advances_example :
    (t : SessionState) × (apply_action heavy pool 0
        (session_of locked)
        5
        (Message.commit 0 101002 (1 ∷ []))
      ≡ done t)
    × IsSession heavy t
    × (get_committed_block t 0 ≡ done (some block))
    × (t.current_round.sequence_number ≡ 0 + 1)
commit-advances_example =
    commit-advances heavy pool 0 block (1 ∷ []) accepts heavy-IsWeighed heavy-IsSized
      heavy-IsConfigured (omega arith) (session_of locked) locked-IsSession (omega arith) refl refl
      completes 5

abbrev old : OldRoundState
old = record {
  sequence_number = 0;
  block = block;
  signatures = first_signed;
  approve_signatures = first_signed;
}

old-IsOldRound : IsOldRound heavy 0 old
old-IsOldRound = committed-IsSession.olds 0 old refl

merge-StaysCommitted_example :
    (t : OldRoundState) × (OldRound.merge never_same old old ≡ done t)
    × IsOldRound heavy 0 t
    × (t.block ≡ block)
merge-StaysCommitted_example =
    merge-StaysCommitted heavy heavy-IsWeighed never_same 0 old old-IsOldRound old old-IsOldRound
      refl

merge_round-StaysCommitted_example :
    (t : OldRoundState) × (merge_round never_same old approved ≡ done t)
    × IsOldRound heavy 0 t
    × (t.block ≡ block)
merge_round-StaysCommitted_example =
    merge_round-StaysCommitted heavy heavy-IsWeighed never_same 0 old old-IsOldRound approved
      approved-IsSession.current refl (λ b e. absurd (cc e))
