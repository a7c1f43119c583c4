-- ===== src/Session/Round/Steps.antt =====
-- Every action of a validator in a round keeps the invariant (round.rs, `apply_action_dispatch` and
-- `make_one_impl`).
use ton_labs_node.Base.{
  ℕ, ◌<◌, ◌≡◌, refl, ap, ◌∙◌, Bool, true, false, ◌||◌, length, set, get_elem?-some, length-set, ltb,
  leb, ◌==◌, some, is_some, Outcome, done, arith, Bool-cases, Option-cases, inl, inr,
}
use ton_labs_node.Session.Description.{SessionDescription}
use ton_labs_node.Session.Description.Weights.{IsWeighed}
use ton_labs_node.Session.Description.Priority.{IsSized}
use ton_labs_node.Session.Vector.{change, wrapped_change}
use ton_labs_node.Session.SortedVector.{iter}
use ton_labs_node.Session.SortedVector.Order.{insert}
use ton_labs_node.Session.SortedVector.Push.{push-eq-insert}
use ton_labs_node.Session.SentBlock.{SentBlockPtr}
use ton_labs_node.Session.Message.{Message}
use ton_labs_node.Session.Attempt.Moves.{apply_default_action-Moved}
use ton_labs_node.Session.Round.{RoundState, round_view}
use ton_labs_node.Session.Round.Actions.{
  RoundPool, with_first_attempt, dispatch, apply_action, make_attempt, make_one,
}
use ton_labs_node.Session.Round.Attempts.{number}
use ton_labs_node.Session.Round.Invariant.{IsConfigured, IsRound}
use ton_labs_node.Session.Round.Voting.{round_view-Answers}
use ton_labs_node.Session.Round.Blocks.{Keeps, StepsWell, apply_submitted-StepsWell}
use ton_labs_node.Session.Round.Approving.{apply_approved-StepsWell}
use ton_labs_node.Session.Round.Signing.{apply_committed-StepsWell}
use ton_labs_node.Session.Round.Stepping.{attempt_or_new-lem}
use ton_labs_node.Session.Round.Locking.{apply_action_on_attempt-StepsWell, stepped, Lasts-after}

Keeps-trans : {s t u : RoundState} → Keeps s t → Keeps t u → Keeps s u
Keeps-trans k l = record {
  number_kept = l.number_kept ∙ k.number_kept;
  lock_kept = λ b e. l.lock_kept b (k.lock_kept b e);
}

Keeps-refl : (s : RoundState) → Keeps s s
Keeps-refl s = record { number_kept = refl; lock_kept = λ b e. e }

-- A step with a flag that says whether it changed the round.
abbrev pub FlagsWell : SessionDescription → RoundState → Outcome (RoundState × Bool) → Type 0
FlagsWell desc s o =
    (t : RoundState) × (made : Bool) × (o ≡ done (t, made)) × IsRound desc t × Keeps s t

module _ (desc : SessionDescription) (weighed : IsWeighed desc) (sized : IsSized desc)
    (configured : IsConfigured desc) (pool : RoundPool) (src attempt_id : ℕ)
    (known : src < length desc.sources) where
  -- The entry of the validator becomes the least attempt that it has acted in.
  pub with_first_attempt-FlagsWell :
      (state : RoundState)
      → IsRound desc state
      → FlagsWell desc state (with_first_attempt desc state src attempt_id)
  unfolding with_first_attempt wrapped_change change
  with_first_attempt-FlagsWell state inv =
      let (xs, e, l) = inv.firsts in
      let (first, f) = get_elem?-some xs src (omega arith) in
      let bound : leb src (length xs) ≡ true = ground arith in
      elim (Bool-cases (first == 0 || ltb attempt_id first)) [
        | inr t ↦ (state, false, rw (e, f, t) refl, inv, Keeps-refl state)
        | inl t ↦ (
          record state { first_attempt = some (set xs src attempt_id) },
          true,
          rw (e, f, t, bound) refl,
          record {
            firsts = (set xs src attempt_id, refl, length-set xs src attempt_id ∙ l);
            lasts = inv.lasts;
            blocks_sorted = inv.blocks_sorted;
            blocks = inv.blocks;
            attempts_sorted = inv.attempts_sorted;
            attempts_kept = inv.attempts_kept;
            signed = inv.signed;
            verified = inv.verified;
            locked = inv.locked;
          },
          record { number_kept = refl; lock_kept = λ b q. q },
        )
      ]

  dispatch-StepsWell :
      (state : RoundState)
      → IsRound desc state
      → (message : Message) → StepsWell desc state (dispatch desc pool src attempt_id state message)
  unfolding dispatch
  dispatch-StepsWell state inv (Message.submitted_block _ root file collated) =
      apply_submitted-StepsWell desc sized configured pool state inv src known root file collated
  dispatch-StepsWell state inv (Message.approved_block _ k g) =
      apply_approved-StepsWell desc sized configured pool state inv src known k g
  dispatch-StepsWell state inv (Message.rejected_block _ _ _) = (state, refl, inv, Keeps-refl state)
  dispatch-StepsWell state inv (Message.commit _ k g) =
      apply_committed-StepsWell desc sized configured pool state inv src known k g
  dispatch-StepsWell state inv (Message.vote a b c) =
      apply_action_on_attempt-StepsWell desc weighed sized configured pool state inv src attempt_id
        known (Message.vote a b c) tt
  dispatch-StepsWell state inv (Message.precommit a b c) =
      apply_action_on_attempt-StepsWell desc weighed sized configured pool state inv src attempt_id
        known (Message.precommit a b c) tt
  dispatch-StepsWell state inv (Message.vote_for a b c) =
      apply_action_on_attempt-StepsWell desc weighed sized configured pool state inv src attempt_id
        known (Message.vote_for a b c) tt
  dispatch-StepsWell state inv (Message.empty a b) =
      apply_action_on_attempt-StepsWell desc weighed sized configured pool state inv src attempt_id
        known (Message.empty a b) tt

  -- In a weighed, sized and configured session every message of a known validator is handled
  -- without a panic by a round with the invariant: no assertion, index or unwrap of a handler
  -- fails. The result has the invariant (vectors with an entry for each validator, candidates and
  -- attempts in order, every signature verified, a locked block backed by precommits that reach
  -- the cutoff), the round's number, and the block that was locked before, if one was.
  pub apply_action-IsRound :
      (state : RoundState)
      → IsRound desc state
      → (message : Message)
      → (t : RoundState) × (apply_action desc pool src attempt_id state message ≡ done t)
        × IsRound desc t
        × (t.sequence_number ≡ state.sequence_number)
        × ((b : SentBlockPtr) → state.precommitted_block ≡ some b → t.precommitted_block ≡ some b)
  unfolding apply_action
  apply_action-IsRound state inv message =
      let (s, made, e, si, sk) = with_first_attempt-FlagsWell state inv in
      let (t, q, ti, tk) = dispatch-StepsWell s si message in
      let k = Keeps-trans sk tk in (t, rw e q, ti, k.number_kept, k.lock_kept)

  make_attempt-FlagsWell :
      (state : RoundState)
      → IsRound desc state
      → (made : Bool) → FlagsWell desc state (make_attempt desc pool src attempt_id state made)
  unfolding make_attempt
  make_attempt-FlagsWell state inv made = elim (Option-cases state.precommitted_block) [
    | inr (c, e) ↦
        let locked : is_some state.precommitted_block ≡ true = ap is_some e in
        (state, made, rw locked refl, inv, Keeps-refl state)
    | inl e ↦
        let unlocked : is_some state.precommitted_block ≡ false = ap is_some e in
        let (a, ea, old, numbered, only) =
          attempt_or_new-lem desc weighed sized configured pool state inv src attempt_id known in
        let (b, acted, eb, move, same) =
          apply_default_action-Moved desc weighed sized pool.vote (round_view desc state) src
            attempt_id known
            (round_view-Answers desc weighed configured state inv src known attempt_id) a old in
        elim (Bool-cases acted) [
          | inr t ↦ (state, made, rw (unlocked, ea, eb, t) refl, inv, Keeps-refl state)
          | inl t ↦
              let after =
                Lasts-after desc weighed sized configured pool state inv src attempt_id known a b
                  old numbered only move in
              let (kept, steps) =
                stepped desc weighed sized configured pool state inv src attempt_id known a b old
                  numbered only move e state.precommitted_block (λ c z. absurd (cc (e, z)))
                  state.last_precommit after in
              (
                record state { attempts = some (insert number b (iter state.attempts)) },
                true,
                rw
                    (
                      unlocked,
                      ea,
                      eb,
                      t,
                      push-eq-insert number pool.attempt state.attempts b inv.attempts_sorted,
                    )
                    refl,
                kept,
                steps,
              )
        ]
  ]

  -- In a weighed, sized and configured session the node's own step for a known validator does not
  -- panic on a round with the invariant; the result has the invariant and the block that was
  -- locked before, if one was.
  pub make_one-IsRound :
      (state : RoundState)
      → IsRound desc state
      → (t : RoundState) × (made : Bool) × (make_one desc pool src attempt_id state
          ≡ done (t, made))
        × IsRound desc t
        × ((b : SentBlockPtr) → state.precommitted_block ≡ some b → t.precommitted_block ≡ some b)
  unfolding make_one
  make_one-IsRound state inv =
      let (s, first, e, si, sk) = with_first_attempt-FlagsWell state inv in
      let (t, made, q, ti, tk) = make_attempt-FlagsWell s si first in
      let k = Keeps-trans sk tk in (t, made, rw e q, ti, k.lock_kept)
