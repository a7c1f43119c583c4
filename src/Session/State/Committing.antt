-- ===== src/Session/State/Committing.antt =====
-- The commit that completes a quorum of signatures ends the round (session_state.rs and round.rs).
use ton_labs_node.Base.{
  ℕ, ◌+◌, ◌<◌, ◌≡◌, refl, sym, ap, ◌∙◌, true, false, [], ◌∷◌, ◌++◌, length, set, get_elem?,
  get_elem?-some, get_elem?-lt, get_elem?-end, ltb, leb, ◌==◌, u32, Option, none, some, is_some,
  done, arith, subst,
}
use ton_labs_node.Session.Description.{SessionDescription, weigh}
use ton_labs_node.Session.Description.Weights.{IsWeighed}
use ton_labs_node.Session.Description.Priority.{IsSized}
use ton_labs_node.Session.Vector.{change, wrapped_push}
use ton_labs_node.Session.SortedVector.{iter}
use ton_labs_node.Session.SentBlock
use ton_labs_node.Session.SentBlock.{SentBlockPtr}
use ton_labs_node.Session.BlockCandidate.{Signature}
use ton_labs_node.Session.Message.{Message, get_round_id}
use ton_labs_node.Session.Round.{RoundState, create_current_round, check_block_is_signed}
use ton_labs_node.Session.Round.Actions
use ton_labs_node.Session.Round.Actions.{
  RoundPool, signature_accepted, sign, commit_block, apply_committed_block_action, dispatch,
}
use ton_labs_node.Session.Round.Invariant.{IsConfigured, IsRound}
use ton_labs_node.Session.Round.Steps.{with_first_attempt-FlagsWell, apply_action-IsRound}
use ton_labs_node.Session.Round.Sourced.{IsSourced}
use ton_labs_node.Session.Round.Sourced.Handlers.{first-Own, apply_action-Sourced_round}
use ton_labs_node.Session.OldRound.{OldRoundState, create_from_round}
use ton_labs_node.Session.OldRound.Invariant.{create_from_round-IsOldRound}
use ton_labs_node.Session.State.{
  SessionState, clamped, switched, switched_if_signed, apply_current, apply_in_round, apply_action,
  get_committed_block,
}
use ton_labs_node.Session.State.Invariant.{IsSession, of_old_round-some, wrapped_push-append}
use ton_labs_node.Session.State.Steps.{
  with_time-IsSession, change_time, switched-IsSession, after_switch,
}

module _ (desc : SessionDescription) (pool : RoundPool) (src : ℕ) (b : SentBlockPtr) (g : Signature)
    (accepted : signature_accepted desc src b g (SentBlock.get_id b) ≡ done true) where
  -- A commit that a round takes.
  committed-signs :
      (state : RoundState)
      → state.precommitted_block ≡ some b
      → get_elem? state.signatures src ≡ some none
      → apply_committed_block_action desc pool src state (SentBlock.get_id b) g
        ≡ done (record state { signatures = set state.signatures src (some g) })
  unfolding apply_committed_block_action commit_block sign change
  committed-signs state e f =
      let l : leb src (length state.signatures) ≡ true =
        ground (arith, get_elem?-lt state.signatures src none f) in
      let same : (SentBlock.get_id b == SentBlock.get_id b) ≡ true = ground arith in
      go state.precommitted_block e
    where
      go :
          (o : Option SentBlockPtr)
          → o ≡ some b
          → (elim o [
            | none ↦ done state
            | some block ↦ commit_block desc pool src state block (SentBlock.get_id b) g
          ])
            ≡ done (record state { signatures = set state.signatures src (some g) })
      go none q = absurd (cc q)
      go (some c) q =
          let z : c ≡ b = cc in
          let l : leb src (length state.signatures) ≡ true =
            ground (arith, get_elem?-lt state.signatures src none f) in
          let same : (SentBlock.get_id b == SentBlock.get_id b) ≡ true = ground arith in
          rw (z, same, f, accepted, l) refl

  module _ (weighed : IsWeighed desc) (sized : IsSized desc) (configured : IsConfigured desc)
      (known : src < length desc.sources) where
    -- The round after it.
    round_signs :
        (attempt_id r : ℕ) (state : RoundState)
        → IsRound desc state
        → IsSourced state
        → state.precommitted_block ≡ some b
        → get_elem? state.signatures src ≡ some none
        → (t : RoundState) × (Actions.apply_action desc pool src attempt_id state
              (Message.commit r (SentBlock.get_id b) g)
            ≡ done t)
          × (t.signatures ≡ set state.signatures src (some g))
          × (t.precommitted_block ≡ some b)
    unfolding Actions.apply_action dispatch
    round_signs attempt_id r state inv sourced e f =
        let (s, made, q, si, sk) =
          with_first_attempt-FlagsWell desc weighed sized configured pool src attempt_id known state
            inv in
        let own =
          first-Own desc weighed sized configured pool src attempt_id known state inv sourced
            (s, made) q in
        let same = own.0.signatures_same in
        let lock = own.0.lock_same ∙ e in
        (
          record s { signatures = set s.signatures src (some g) },
          rw q (committed-signs s lock (ap (λ xs. get_elem? xs src) same ∙ f)),
          ap (λ xs. set xs src (some g)) same,
          lock,
        )

    -- A signed round is put behind.
    ends :
        (s : SessionState) (r : RoundState) (old : OldRoundState)
        → check_block_is_signed desc r ≡ done true
        → create_from_round desc r ≡ done old
        → (u32 (length (iter s.old_rounds)) == old.sequence_number) ≡ true
        → switched_if_signed desc (record s { current_round = r })
          ≡ done (record s {
            current_round = create_current_round desc (u32 (r.sequence_number + 1));
            old_rounds = wrapped_push s.old_rounds old;
          })
    unfolding switched_if_signed switched
    ends s r old signed c counted = rw (signed, c, counted) refl

    -- A message of the current round.
    lands :
        (s : SessionState) (time : ℕ) (m : Message) (r : RoundState) {t : SessionState}
        → get_round_id m ≡ u32 s.current_round.sequence_number
        → s.current_round.sequence_number < 4294967296
        → Actions.apply_action desc pool src time s.current_round m ≡ done r
        → switched_if_signed desc (record s { current_round = r }) ≡ done t
        → apply_in_round desc pool src s time (get_round_id m) m ≡ done t
    unfolding apply_in_round apply_current
    lands s time m r e l q w =
        let n = s.current_round.sequence_number in
        let later : ltb n (get_round_id m) ≡ false = ground arith in
        let same : (get_round_id m == n) ≡ true = ground arith in rw (later, same, q) w

    -- In a weighed, sized and configured session with the invariant whose current round has locked
    -- a block, and while the number of the next round fits a `u32`, the commit of that block by a
    -- known validator that has not yet signed, with a signature that is accepted and that
    -- completes the cutoff weight, ends the round: the message is handled without a panic to a
    -- session with the invariant, the block is committed in the round, and the next round is the
    -- current one.
    pub commit-advances :
        (state : SessionState)
        → IsSession desc state
        → state.current_round.sequence_number + 1 < 4294967296
        → state.current_round.precommitted_block ≡ some b
        → get_elem? state.current_round.signatures src ≡ some none
        → weigh is_some desc (set state.current_round.signatures src (some g)) ≡ done true
        → (attempt_id : ℕ)
        → (t : SessionState) × (apply_action desc pool src state attempt_id
              (Message.commit state.current_round.sequence_number (SentBlock.get_id b) g)
            ≡ done t)
          × IsSession desc t
          × (get_committed_block t state.current_round.sequence_number ≡ done (some b))
          × (t.current_round.sequence_number ≡ state.current_round.sequence_number + 1)
    unfolding apply_action
    commit-advances state inv fits e f quorum attempt_id =
        let n = state.current_round.sequence_number in
        let (current, now) = get_elem?-some state.attempt_ids src (omega (arith, inv.times)) in
        let time = clamped current attempt_id in
        let timed = record state { attempt_ids = set state.attempt_ids src time } in
        let timed_inv =
          with_time-IsSession desc weighed sized configured pool src known state inv time in
        let m = Message.commit n (SentBlock.get_id b) g in
        let (r, q, signatures, lock) =
          round_signs time n state.current_round inv.current inv.sourced e f in
        let (v, w, good, number, _) =
          apply_action-IsRound desc weighed sized configured pool src time known state.current_round
            inv.current m in
        let z : v ≡ r = (let y : done v ≡ done r = sym w ∙ q in cc) in
        let good_r = subst (IsRound desc) z good in
        let number_r = subst (λ x. x.sequence_number ≡ n) z number in
        let sourced_r =
          apply_action-Sourced_round desc weighed sized configured pool src time known
            state.current_round inv.current inv.sourced m r q in
        let signed : check_block_is_signed desc r ≡ done true =
          unfold check_block_is_signed in (ap (weigh is_some desc) signatures ∙ quorum) in
        let (old, c, committed, block) =
          create_from_round-IsOldRound desc weighed configured r good_r sourced_r signed in
        let counted : (u32 (length (iter state.old_rounds)) == old.sequence_number) ≡ true =
          ground (arith, inv.ended, committed.numbered) in
        let after =
          after_switch desc weighed sized configured timed timed_inv r good_r sourced_r number_r old
            committed in
        let last_old : get_elem? (iter after.old_rounds) n ≡ some old =
          ap (λ xs. get_elem? xs n) (wrapped_push-append state.old_rounds old)
          ∙ ap (λ i. get_elem? (iter state.old_rounds ++ old ∷ []) i) (sym inv.ended)
          ∙ get_elem?-end (iter state.old_rounds) old in
        let committed_b : old.block ≡ b =
          (let y : some old.block ≡ some b = sym block ∙ lock in cc) in
        (
          after,
          rw
              (
                now,
                change_time desc weighed sized configured pool src known state.attempt_ids time
                    inv.times,
              )
              (lands timed time m r (unfold get_round_id in refl) (omega arith) q
                (ends timed r old signed c counted)),
          switched-IsSession desc weighed sized configured timed timed_inv r good_r sourced_r
              number_r old committed fits,
          of_old_round-some (λ o. o.block) after n old last_old
              ∙ ap (λ o. done (some o)) committed_b,
          unfold create_current_round in omega (arith, number_r),
        )
