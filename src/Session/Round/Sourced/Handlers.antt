-- ===== src/Session/Round/Sourced/Handlers.antt =====
-- Every action in a round leaves its attempts with blocks of its candidates, and the node's own step
-- leaves its candidates, signatures and number as they are (round.rs).
use ton_labs_node.Base.{
  ℕ, ◌<◌, ◌≡◌, refl, sym, ◌∙◌, Bool, true, false, not, ◌||◌, [], ◌∷◌, length, ltb, ◌==◌, at, Option,
  none, some, is_some, done, Always, done-Always, bind-Always, if-Always, option-Always, unwrap,
  Option-cases, inl, inr, subst,
}
use ton_labs_node.Session.Description.{
  SessionDescription, get_node_priority, check_approve_signature,
}
use ton_labs_node.Session.Description.Weights.{IsWeighed}
use ton_labs_node.Session.Description.Priority.{IsSized}
use ton_labs_node.Session.Vector.{change, wrapped_at, wrapped_change}
use ton_labs_node.Session.SortedVector.{iter}
use ton_labs_node.Session.SortedVector.Order.{find, find-All, insert, insert-All}
use ton_labs_node.Session.SortedVector.Push.{push-eq-insert}
use ton_labs_node.Session.SentBlock
use ton_labs_node.Session.SentBlock.{SentBlockPtr}
use ton_labs_node.Session.BlockCandidate
use ton_labs_node.Session.BlockCandidate.{
  BlockCandidate, Signature, create_unapproved, check_block_is_approved_by,
}
use ton_labs_node.Session.Message.{Message}
use ton_labs_node.Session.Attempt
use ton_labs_node.Session.Attempt.{
  RoundAttempt, create_empty, get_voted_block, apply_default_action,
}
use ton_labs_node.Session.Attempt.Invariant.{IsAttempt}
use ton_labs_node.Session.Attempt.Sourced.{
  Sourced, apply_action-Sourced, apply_default_action-Sourced,
}
use ton_labs_node.Session.Round.{RoundState, get_block, round_view, check_block_is_sent_by}
use ton_labs_node.Session.Round.Actions.{
  RoundPool, is_negative, add_candidate, apply_submitted_block_action, approved_same_source,
  approve, approve_skip, approve_block, apply_approved_block_action, signature_accepted, sign,
  commit_block, apply_committed_block_action, attempt_or_new, new_precommitted_block,
  new_last_precommit, apply_action_on_attempt, with_first_attempt, dispatch, apply_action,
  make_attempt, make_one,
}
use ton_labs_node.Session.Round.Attempts.{number, get_attempt-find}
use ton_labs_node.Session.Round.Invariant.{IsConfigured, IsRound}
use ton_labs_node.Session.Round.Stepping.{attempt_or_new-lem}
use ton_labs_node.Session.Round.Steps.{with_first_attempt-FlagsWell}
use ton_labs_node.Session.Round.Sourced.{
  Candidate, IsSourced, insert-Candidate, Sourced-mono, choose_block_to_vote-Sourced,
  held_block-Sourced,
}

module _ (desc : SessionDescription) (pool : RoundPool) (src : ℕ) (state : RoundState)
    (inv : IsRound desc state) (sourced : IsSourced state) where
  add_candidate-Sourced :
      (candidate : BlockCandidate) → Always IsSourced (add_candidate desc pool src state candidate)
  unfolding add_candidate
  add_candidate-Sourced candidate =
      let key = BlockCandidate.get_id in
      let old = iter state.sent_blocks in
      rw (push-eq-insert key pool.candidate state.sent_blocks candidate inv.blocks_sorted) (
        done-Always IsSourced (record state { sent_blocks = some (insert key candidate old) })
          (Sourced-mono (Candidate old) (Candidate (insert key candidate old))
            (insert-Candidate old candidate inv.blocks_sorted) (iter state.attempts) sourced))

  unchanged : Always IsSourced (done state)
  unchanged = done-Always IsSourced state sourced

  apply_submitted-Sourced :
      (root file collated : ℕ)
      → Always IsSourced (apply_submitted_block_action desc pool src state root file collated)
  unfolding apply_submitted_block_action
  apply_submitted-Sourced root file collated =
      bind-Always IsSourced (get_node_priority desc src state.sequence_number) (λ priority e.
        if-Always IsSourced (is_negative priority) (λ t. unchanged)
          (λ t.
            if-Always IsSourced (check_block_is_sent_by state src) (λ u. unchanged)
              (λ u.
                bind-Always IsSourced (SentBlock.create desc src root file collated)
                  (λ block q. add_candidate-Sourced (create_unapproved desc block)))))

  approve-Sourced :
      (candidate : BlockCandidate) (g : Signature)
      → Always IsSourced (approve desc pool src state candidate g)
  unfolding approve
  approve-Sourced candidate g =
      bind-Always IsSourced (BlockCandidate.push candidate src (some g))
        (λ approved e. add_candidate-Sourced approved)

  approve_skip-Sourced :
      (o : Option BlockCandidate) (g : Signature)
      → Always IsSourced (approve_skip desc pool src state o g)
  unfolding approve_skip
  approve_skip-Sourced none [] = approve-Sourced (create_unapproved desc none) []
  approve_skip-Sourced none (x ∷ g) = unchanged
  approve_skip-Sourced (some candidate) [] =
      bind-Always IsSourced (check_block_is_approved_by candidate src) (λ approved e.
        if-Always IsSourced approved (λ t. unchanged) (λ t. approve-Sourced candidate []))
  approve_skip-Sourced (some candidate) (x ∷ g) =
      bind-Always IsSourced (check_block_is_approved_by candidate src)
        (λ approved e. if-Always IsSourced approved (λ t. unchanged) (λ t. unchanged))

  approve_block-Sourced :
      (candidate : BlockCandidate) (g : Signature)
      → Always IsSourced (approve_block desc pool src state candidate g)
  unfolding approve_block
  approve_block-Sourced candidate g =
      let source = BlockCandidate.get_source_index candidate in
      bind-Always IsSourced (check_block_is_approved_by candidate src) (λ approved e.
        if-Always IsSourced approved (λ t. unchanged)
          (λ t.
            bind-Always IsSourced
              (approved_same_source desc pool src (iter state.sent_blocks) source)
              (λ other q.
                if-Always IsSourced other (λ u. unchanged)
                  (λ u. bind-Always IsSourced (unwrap candidate.block) (λ block f.
                    bind-Always IsSourced
                      (check_approve_signature desc block.root_hash block.file_hash src g)
                      (λ valid k.
                        if-Always IsSourced valid (λ v. approve-Sourced candidate g)
                          (λ v. unchanged)))))))

  apply_approved-Sourced :
      (k : ℕ) (g : Signature)
      → Always IsSourced (apply_approved_block_action desc pool src state k g)
  unfolding apply_approved_block_action
  apply_approved-Sourced k g =
      if-Always IsSourced (k == SentBlock.skip_round_candidate_blockid)
        (λ t. approve_skip-Sourced (get_block state k) g)
        (λ t.
          option-Always IsSourced (get_block state k) unchanged
            (λ candidate. approve_block-Sourced candidate g))

  apply_committed-Sourced :
      (k : ℕ) (g : Signature)
      → Always IsSourced (apply_committed_block_action desc pool src state k g)
  unfolding apply_committed_block_action commit_block sign
  apply_committed-Sourced k g = option-Always IsSourced state.precommitted_block unchanged (λ block.
      if-Always IsSourced (SentBlock.get_id block == k)
        (λ t. bind-Always IsSourced (at state.signatures src) (λ known e.
          if-Always IsSourced (is_some known) (λ u. unchanged)
            (λ u. bind-Always IsSourced (signature_accepted desc src block g k) (λ accepted q.
              if-Always IsSourced accepted
                (λ v. bind-Always IsSourced (change state.signatures src (some g)) (λ signatures f.
                  done-Always IsSourced (record state { signatures = signatures }) sourced))
                (λ v. unchanged)))))
        (λ t. unchanged))

-- What the node's own step leaves as it is.
pub record IsOwnStep (s t : RoundState) : Type 0 where
  pub number_same : t.sequence_number ≡ s.sequence_number
  pub blocks_same : t.sent_blocks ≡ s.sent_blocks
  pub signatures_same : t.signatures ≡ s.signatures
  pub lock_same : t.precommitted_block ≡ s.precommitted_block

module _ (desc : SessionDescription) (weighed : IsWeighed desc) (sized : IsSized desc)
    (configured : IsConfigured desc) (pool : RoundPool) (src attempt_id : ℕ)
    (known : src < length desc.sources) where
  module _ (state : RoundState) (inv : IsRound desc state) (sourced : IsSourced state) where
    abbrev Known : SentBlockPtr → Type 0
    Known = Candidate (iter state.sent_blocks)

    -- The attempt that is acted on has only blocks of the candidates.
    acted_on :
        (a : RoundAttempt)
        → attempt_or_new desc state attempt_id ≡ done a
        → IsAttempt desc a × Sourced Known a
    unfolding attempt_or_new create_empty
    acted_on a e =
        let (b, f, old, numbered, only) =
          attempt_or_new-lem desc weighed sized configured pool state inv src attempt_id known in
        let s : b ≡ a = (let y : done b ≡ done a = sym f ∙ e in cc) in
        subst (λ x. IsAttempt desc x × Sourced Known x) s (old, go b f only)
      where
        go :
            (b : RoundAttempt)
            → attempt_or_new desc state attempt_id ≡ done b
            → ((c : RoundAttempt) → find number attempt_id (iter state.attempts) ≡ some c → c ≡ b)
            → Sourced Known b
        go b f only = elim (Option-cases (find number attempt_id (iter state.attempts))) [
          | inr (c, q) ↦
              subst (Sourced Known) (only c q)
                (find-All number (Sourced Known) attempt_id (iter state.attempts) c sourced q).0
          | inl q ↦
              let z : create_empty desc attempt_id ≡ b =
                (let y : done (create_empty desc attempt_id) ≡ done b =
                    rw (get_attempt-find state.attempts attempt_id inv.attempts_sorted, q) at f in
                  cc) in
              subst (Sourced Known) z (record { votes = tt; proposal = λ x h. absurd (cc h) })
        ]

    apply_on_attempt-Sourced :
        (message : Message)
        → Always IsSourced (apply_action_on_attempt desc state pool src attempt_id message)
    unfolding apply_action_on_attempt
    apply_on_attempt-Sourced message =
        if-Always IsSourced (is_some state.precommitted_block)
          (λ t. done-Always IsSourced state sourced)
          (λ t. bind-Always IsSourced (attempt_or_new desc state attempt_id) (λ old e.
            let (good, from) = acted_on old e in
            bind-Always IsSourced (get_voted_block desc old) (λ _ _.
              bind-Always IsSourced
                (Attempt.apply_action desc pool.vote (round_view desc state) src attempt_id old
                  message)
                (λ attempt q. bind-Always IsSourced (get_voted_block desc attempt) (λ voted _.
                  bind-Always IsSourced (new_precommitted_block desc state attempt voted) (λ p _.
                    bind-Always IsSourced
                      (new_last_precommit desc state src attempt_id attempt voted)
                      (λ l _.
                        rw
                          (push-eq-insert number pool.attempt state.attempts attempt
                            inv.attempts_sorted)
                          (done-Always IsSourced _ (
                            insert-All number (Sourced Known) attempt (iter state.attempts)
                              (apply_action-Sourced Known desc weighed sized pool.vote
                                (round_view desc state) src attempt_id known
                                (choose_block_to_vote-Sourced desc weighed configured state inv
                                  sourced src known attempt_id)
                                (held_block-Sourced desc weighed configured state inv sourced src
                                  known)
                                old good from message attempt q)
                              sourced)))))))))

    dispatch-Sourced :
        (message : Message) → Always IsSourced (dispatch desc pool src attempt_id state message)
    unfolding dispatch
    dispatch-Sourced (Message.submitted_block _ root file collated) =
        apply_submitted-Sourced desc pool src state inv sourced root file collated
    dispatch-Sourced (Message.approved_block _ k g) =
        apply_approved-Sourced desc pool src state inv sourced k g
    dispatch-Sourced (Message.rejected_block _ _ _) = unchanged desc pool src state inv sourced
    dispatch-Sourced (Message.commit _ k g) =
        apply_committed-Sourced desc pool src state inv sourced k g
    dispatch-Sourced (Message.vote a b c) = apply_on_attempt-Sourced (Message.vote a b c)
    dispatch-Sourced (Message.precommit a b c) = apply_on_attempt-Sourced (Message.precommit a b c)
    dispatch-Sourced (Message.vote_for a b c) = apply_on_attempt-Sourced (Message.vote_for a b c)
    dispatch-Sourced (Message.empty a b) = apply_on_attempt-Sourced (Message.empty a b)

    abbrev Own : RoundState × Bool → Type 0
    Own r = IsOwnStep state r.0 × IsSourced r.0

    own_self : IsOwnStep state state
    own_self = record {
      number_same = refl;
      blocks_same = refl;
      signatures_same = refl;
      lock_same = refl;
    }

    make_attempt-Own : (made : Bool) → Always Own (make_attempt desc pool src attempt_id state made)
    unfolding make_attempt
    make_attempt-Own made =
        let stay = done-Always Own (state, made) (own_self, sourced) in
        if-Always Own (is_some state.precommitted_block) (λ t. stay)
          (λ t. bind-Always Own (attempt_or_new desc state attempt_id) (λ old e.
            let (good, from) = acted_on old e in
            bind-Always Own
              (apply_default_action desc pool.vote (round_view desc state) src attempt_id old)
              (λ r q.
                if-Always Own (not r.1) (λ u. stay)
                  (λ u.
                    rw (push-eq-insert number pool.attempt state.attempts r.0 inv.attempts_sorted) (
                      done-Always Own _ (
                        record {
                          number_same = refl;
                          blocks_same = refl;
                          signatures_same = refl;
                          lock_same = refl;
                        },
                        insert-All number (Sourced Known) r.0 (iter state.attempts)
                            (apply_default_action-Sourced Known desc weighed sized pool.vote
                              (round_view desc state) src attempt_id known
                              (choose_block_to_vote-Sourced desc weighed configured state inv
                                sourced src known attempt_id)
                              (held_block-Sourced desc weighed configured state inv sourced src
                                known)
                              old good from r q)
                            sourced,
                      ))))))

  own_trans : {s t u : RoundState} → IsOwnStep s t → IsOwnStep t u → IsOwnStep s u
  own_trans h k = record {
    number_same = k.number_same ∙ h.number_same;
    blocks_same = k.blocks_same ∙ h.blocks_same;
    signatures_same = k.signatures_same ∙ h.signatures_same;
    lock_same = k.lock_same ∙ h.lock_same;
  }

  module _ (state : RoundState) (inv : IsRound desc state) (sourced : IsSourced state) where
    pub first-Own : Always (Own state inv sourced) (with_first_attempt desc state src attempt_id)
    unfolding with_first_attempt
    first-Own =
        let P = Own state inv sourced in
        bind-Always P (wrapped_at state.first_attempt src) (λ first e.
          if-Always P (first == 0 || ltb attempt_id first)
            (λ t. bind-Always P (wrapped_change state.first_attempt src attempt_id) (λ firsts q.
              done-Always P (record state { first_attempt = firsts }, true)
                (
                  record {
                    number_same = refl;
                    blocks_same = refl;
                    signatures_same = refl;
                    lock_same = refl;
                  },
                  sourced,
                )))
            (λ t. done-Always P (state, false) (own_self state inv sourced, sourced)))

    first-IsRound :
        (r : RoundState × Bool)
        → with_first_attempt desc state src attempt_id ≡ done r
        → IsRound desc r.0
    first-IsRound r e =
        let (s, made, f, si, sk) =
          with_first_attempt-FlagsWell desc weighed sized configured pool src attempt_id known state
            inv in
        let z : (s, made) ≡ r = (let y : done (s, made) ≡ done r = sym f ∙ e in cc) in
        subst (λ x. IsRound desc x.0) z si

    -- A message leaves the attempts of a round with blocks of its candidates.
    pub apply_action-Sourced_round :
        (message : Message) → Always IsSourced (apply_action desc pool src attempt_id state message)
    unfolding apply_action
    apply_action-Sourced_round message =
        bind-Always IsSourced (with_first_attempt desc state src attempt_id)
          (λ r e. dispatch-Sourced r.0 (first-IsRound r e) (first-Own r e).1 message)

    -- And so does the node's own step, which keeps all but the attempts and the first attempts.
    pub make_one-Own :
        Always (λ r. IsOwnStep state r.0 × IsSourced r.0) (make_one desc pool src attempt_id state)
    unfolding make_one
    make_one-Own =
        let P = Own state inv sourced in
        bind-Always P (with_first_attempt desc state src attempt_id) (λ r e. λ u q.
          let (h, k) = first-Own r e in
          let (g, w) = make_attempt-Own r.0 (first-IsRound r e) k r.1 u q in (own_trans h g, w))
