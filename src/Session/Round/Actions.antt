-- ===== src/Session/Round/Actions.antt =====
-- validator-session/src/round.rs: the messages of a round and what each makes of its state. A step
-- that the code gives up returns the state that it was called with.
use ton_labs_node.Base.{
  ℕ, Bool, true, false, ◌||◌, not, List, [], ◌∷◌, ◌==◌, ltb, if◌then◌else◌, Option, none, some,
  is_some, Outcome, done, at, assert, unwrap, ◌>>=◌, ◌>>◌, max,
}
use ton_labs_node.Session.Description.{
  SessionDescription, ℤ, pos, negsuc, get_node_priority, check_signature, check_approve_signature,
}
use ton_labs_node.Session.Merge.{Same}
use ton_labs_node.Session.Vector.{change, wrapped_at, wrapped_change, wrapped_modify}
use ton_labs_node.Session.SortedVector
use ton_labs_node.Session.SortedVector.{iter}
use ton_labs_node.Session.SentBlock
use ton_labs_node.Session.SentBlock.{SentBlock, SentBlockPtr, skip_round_candidate_blockid}
use ton_labs_node.Session.VoteCandidate.{VoteCandidate}
use ton_labs_node.Session.BlockCandidate
use ton_labs_node.Session.BlockCandidate.{
  BlockCandidate, Signature, create_unapproved, check_block_is_approved_by,
}
use ton_labs_node.Session.Message.{Message}
use ton_labs_node.Session.Attempt
use ton_labs_node.Session.Attempt.{
  RoundAttempt, create_empty, get_voted_block, check_attempt_is_precommitted,
  check_precommit_received_from, apply_default_action,
}
use ton_labs_node.Session.Round.{
  RoundState, get_attempt, get_block, check_block_is_sent_by, round_view, choose_block_to_vote,
}

-- The comparisons of the pooled objects that the steps of a round meet.
pub record RoundPool : Type 0 where
  pub vote : Same VoteCandidate
  pub candidate : Same BlockCandidate
  pub attempt : Same RoundAttempt

unfoldable pub is_negative : ℤ → Bool
is_negative (pos n) = false
is_negative (negsuc n) = true

module _ (desc : SessionDescription) (src_idx : ℕ) where
  -- The signature of the precommitted block is checked; the skip candidate has an empty one.
  unfoldable pub signature_accepted : SentBlockPtr → Signature → ℕ → Outcome Bool
  signature_accepted block signature candidate_id =
      if candidate_id == skip_round_candidate_blockid
      then done (elim signature [ [] ↦ true | x ∷ rest ↦ false ])
      else (unwrap block >>= λ sent.
          check_signature desc sent.root_hash sent.file_hash src_idx signature)

module _ (desc : SessionDescription) (pool : RoundPool) (src_idx : ℕ) where
  unfoldable pub add_candidate : RoundState → BlockCandidate → Outcome RoundState
  add_candidate state candidate = do
    sent_blocks ← SortedVector.push BlockCandidate.get_id pool.candidate state.sent_blocks candidate
    done (record state { sent_blocks = sent_blocks })

  unfoldable pub apply_submitted_block_action : RoundState → ℕ → ℕ → ℕ → Outcome RoundState
  unfolding is_negative add_candidate
  apply_submitted_block_action state root_hash file_hash collated_data_file_hash =
      get_node_priority desc src_idx state.sequence_number >>= λ priority.
      if is_negative priority
      then done state
      else if check_block_is_sent_by state src_idx
      then done state
      else (SentBlock.create desc src_idx root_hash file_hash collated_data_file_hash >>= λ block.
          add_candidate state (create_unapproved desc block))

  -- Has the validator approved a block of the same source already?
  unfoldable pub approved_same_source : List BlockCandidate → ℕ → Outcome Bool
  approved_same_source [] source = done false
  approved_same_source (candidate ∷ candidates) source =
      let rest = approved_same_source candidates source in
      if BlockCandidate.get_source_index candidate == source
      then (check_block_is_approved_by candidate src_idx >>= λ b. if b then done true else rest)
      else rest

  -- The last step: the approval is added to the candidate, the candidate to the round.
  unfoldable pub approve : RoundState → BlockCandidate → Signature → Outcome RoundState
  unfolding add_candidate
  approve state candidate signature =
      BlockCandidate.push candidate src_idx (some signature) >>= λ approved.
      add_candidate state approved

  -- An approval of the skip candidate, which may be the first one and is not signed.
  unfoldable pub approve_skip : RoundState → Option BlockCandidate → Signature → Outcome RoundState
  unfolding approve
  approve_skip state none (x ∷ signature) = done state
  approve_skip state none [] = approve state (create_unapproved desc none) []
  approve_skip state (some candidate) signature =
      check_block_is_approved_by candidate src_idx >>= λ approved.
      if approved
      then done state
      else elim signature [ [] ↦ approve state candidate [] | x ∷ rest ↦ done state ]

  -- An approval of a block that is in the round.
  unfoldable pub approve_block : RoundState → BlockCandidate → Signature → Outcome RoundState
  unfolding approve
  approve_block state candidate signature =
      check_block_is_approved_by candidate src_idx >>= λ approved.
      if approved
      then done state
      else (approved_same_source (iter state.sent_blocks)
            (BlockCandidate.get_source_index candidate)
          >>= λ other.
              if other
              then done state
              else (unwrap candidate.block >>= λ block.
                  (check_approve_signature desc block.root_hash block.file_hash src_idx signature
                    >>= λ valid. if valid then approve state candidate signature else done state)))

  unfoldable pub apply_approved_block_action : RoundState → ℕ → Signature → Outcome RoundState
  unfolding approve_skip approve_block
  apply_approved_block_action state candidate_id signature =
      if candidate_id == skip_round_candidate_blockid
      then approve_skip state (get_block state candidate_id) signature
      else elim (get_block state candidate_id) [
        | none ↦ done state
        | some candidate ↦ approve_block state candidate signature
      ]

  -- `apply_rejected_block_action` only logs.
  abbrev apply_rejected_block_action : RoundState → Outcome RoundState
  apply_rejected_block_action state = done state

  unfoldable pub sign : RoundState → Signature → Outcome RoundState
  sign state signature = do
    signatures ← change state.signatures src_idx (some signature)
    done (record state { signatures = signatures })

  unfoldable pub commit_block : RoundState → SentBlockPtr → ℕ → Signature → Outcome RoundState
  unfolding sign signature_accepted
  commit_block state block candidate_id signature =
      if SentBlock.get_id block == candidate_id
      then (at state.signatures src_idx >>= λ known.
          if is_some known
          then done state
          else (signature_accepted desc src_idx block signature candidate_id >>= λ accepted.
              if accepted then sign state signature else done state))
      else done state

  unfoldable pub apply_committed_block_action : RoundState → ℕ → Signature → Outcome RoundState
  unfolding commit_block
  apply_committed_block_action state candidate_id signature = elim state.precommitted_block [
    | none ↦ done state
    | some block ↦ commit_block state block candidate_id signature
  ]

unfoldable pub max_of : List ℕ → ℕ
max_of [] = 0
max_of (x ∷ xs) = max x (max_of xs)

-- The attempt with an identifier, or a new one.
unfoldable pub attempt_or_new : SessionDescription → RoundState → ℕ → Outcome RoundAttempt
attempt_or_new desc state attempt_id = get_attempt state.attempts attempt_id >>= λ found.
    done (elim found [ none ↦ create_empty desc attempt_id | some attempt ↦ attempt ])

module _ (desc : SessionDescription) (state : RoundState) where
  -- Does the attempt vote another block than the attempt of the last precommits?
  unfoldable pub other_block : ℕ → Option SentBlockPtr → Outcome Bool
  other_block last none = done false
  other_block last (some voted_block) =
      if last == 0
      then done false
      else (get_attempt state.attempts last >>= λ found.
          (unwrap found >>= λ attempt.
          (get_voted_block desc attempt >>= λ block.
          (unwrap block >>= λ last_block.
          done (not (SentBlock.get_id last_block == SentBlock.get_id voted_block))))))

  -- The precommits that a new voted block takes back.
  unfoldable pub released : Bool → ℕ → Option (List ℕ) → Option (List ℕ)
  released true attempt_id last_precommit =
      wrapped_modify (λ last. if ltb attempt_id last then last else 0) last_precommit
  released false attempt_id last_precommit = last_precommit

  -- The validator's precommit is recorded at the attempt, when it is later than the recorded one.
  unfoldable pub recorded :
      Bool → Option SentBlockPtr → ℕ → ℕ → Option (List ℕ) → Outcome (Option (List ℕ))
  recorded may voted_block src_idx attempt_id kept = wrapped_at kept src_idx >>= λ own.
      if ltb own attempt_id
      then (if may
          then (assert (is_some voted_block) >> wrapped_change kept src_idx attempt_id)
          else done kept)
      else done kept

  -- The new `last_precommit` after the attempt has taken an action of the validator.
  unfoldable pub new_last_precommit :
      ℕ → ℕ → RoundAttempt → Option SentBlockPtr → Outcome (Option (List ℕ))
  unfolding max_of other_block released recorded
  new_last_precommit src_idx attempt_id attempt voted_block = do
    let last = max_of (iter state.last_precommit)
    appears ← other_block last voted_block
    let kept = released appears attempt_id state.last_precommit
    let may = ltb last attempt_id || not appears
    received ← check_precommit_received_from attempt src_idx
    if received then recorded may voted_block src_idx attempt_id kept else done kept

  -- The block that a precommitted attempt locks.
  unfoldable pub new_precommitted_block :
      RoundAttempt → Option SentBlockPtr → Outcome (Option SentBlockPtr)
  new_precommitted_block attempt voted_block =
      check_attempt_is_precommitted desc attempt >>= λ precommitted.
      if precommitted then (assert (is_some voted_block) >> done voted_block) else done none

  unfoldable pub apply_action_on_attempt : RoundPool → ℕ → ℕ → Message → Outcome RoundState
  unfolding attempt_or_new new_last_precommit new_precommitted_block
  apply_action_on_attempt pool src_idx attempt_id message =
      if is_some state.precommitted_block then done state else do
        old ← attempt_or_new desc state attempt_id
        _ ← get_voted_block desc old
        attempt ←
            Attempt.apply_action desc pool.vote (round_view desc state) src_idx attempt_id old
              message
        voted_block ← get_voted_block desc attempt
        precommitted_block ← new_precommitted_block attempt voted_block
        last_precommit ← new_last_precommit src_idx attempt_id attempt voted_block
        attempts ← SortedVector.push (λ a. a.sequence_number) pool.attempt state.attempts attempt
        done (record state {
          precommitted_block = precommitted_block;
          last_precommit = last_precommit;
          attempts = attempts;
        })

  -- The first attempt of the validator in this round is the least one it has acted in.
  unfoldable pub with_first_attempt : ℕ → ℕ → Outcome (RoundState × Bool)
  with_first_attempt src_idx attempt_id = wrapped_at state.first_attempt src_idx >>= λ first.
      if first == 0 || ltb attempt_id first
      then (wrapped_change state.first_attempt src_idx attempt_id >>= λ first_attempt.
          done (record state { first_attempt = first_attempt }, true))
      else done (state, false)

module _ (desc : SessionDescription) (pool : RoundPool) (src_idx attempt_id : ℕ) where
  unfoldable pub dispatch : RoundState → Message → Outcome RoundState
  unfolding apply_submitted_block_action apply_approved_block_action apply_committed_block_action
      apply_action_on_attempt
  dispatch state (Message.submitted_block _ root file collated) =
      apply_submitted_block_action desc pool src_idx state root file collated
  dispatch state (Message.approved_block _ candidate signature) =
      apply_approved_block_action desc pool src_idx state candidate signature
  dispatch state (Message.rejected_block _ _ _) =
      apply_rejected_block_action desc pool src_idx state
  dispatch state (Message.commit _ candidate signature) =
      apply_committed_block_action desc pool src_idx state candidate signature
  dispatch state message = apply_action_on_attempt desc state pool src_idx attempt_id message

  -- `apply_action_dispatch`
  unfoldable pub apply_action : RoundState → Message → Outcome RoundState
  unfolding with_first_attempt dispatch
  apply_action state message =
      with_first_attempt desc state src_idx attempt_id >>= λ first. dispatch first.0 message

  -- The attempt acts by itself, without a message.
  unfoldable pub make_attempt : RoundState → Bool → Outcome (RoundState × Bool)
  unfolding attempt_or_new
  make_attempt state made_changes =
      if is_some state.precommitted_block then done (state, made_changes) else do
        attempt ← attempt_or_new desc state attempt_id
        made ←
            apply_default_action desc pool.vote (round_view desc state) src_idx attempt_id attempt
        if not made.1 then done (state, made_changes) else do
          attempts ← SortedVector.push (λ a. a.sequence_number) pool.attempt state.attempts made.0
          done (record state { attempts = attempts }, true)

  -- `make_one_impl`
  unfoldable pub make_one : RoundState → Outcome (RoundState × Bool)
  unfolding with_first_attempt make_attempt
  make_one state =
      with_first_attempt desc state src_idx attempt_id >>= λ first. make_attempt first.0 first.1

  -- What the node sends next in the round.
  pub create_action : RoundState → Outcome Message
  create_action state =
      if is_some state.precommitted_block
      then done (Message.empty state.sequence_number attempt_id)
      else (get_attempt state.attempts attempt_id >>= λ found. elim found [
        | some attempt ↦
            Attempt.create_action desc pool.vote (round_view desc state) src_idx attempt_id attempt
        | none ↦
            (choose_block_to_vote desc state src_idx attempt_id none >>= λ block. done (elim block [
              | none ↦ Message.empty state.sequence_number attempt_id
              | some b ↦ Message.vote state.sequence_number attempt_id (SentBlock.get_id b)
            ]))
      ])
