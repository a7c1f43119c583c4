-- ===== src/Session/Round/Locking.antt =====
-- An action on an attempt keeps the invariant of its round (round.rs, `apply_action_on_attempt`).
use ton_labs_node.Base.{
  ℕ, ◌<◌, ◌≡◌, refl, ap, ◌∙◌, true, false, List, length, Option, none, some, is_some, Option-cases,
  inl, inr, subst,
}
use ton_labs_node.Session.Description.{SessionDescription}
use ton_labs_node.Session.Description.Weights.{IsWeighed}
use ton_labs_node.Session.Description.Priority.{IsSized}
use ton_labs_node.Session.SortedVector.{iter}
use ton_labs_node.Session.SortedVector.Order.{find, insert, insert-IsSorted, insert-All}
use ton_labs_node.Session.SortedVector.Push.{push-eq-insert}
use ton_labs_node.Session.SentBlock.{SentBlockPtr}
use ton_labs_node.Session.Message.{Message}
use ton_labs_node.Session.Attempt.{RoundAttempt}
use ton_labs_node.Session.Attempt.Invariant.{HasVoted, IsAttempt, first_voted_total}
use ton_labs_node.Session.Attempt.Moves.{Move, IsAttemptMessage, apply_action-Move, Move-IsAttempt}
use ton_labs_node.Session.Round.{RoundState, round_view}
use ton_labs_node.Session.Round.Actions.{RoundPool, max_of, apply_action_on_attempt}
use ton_labs_node.Session.Round.Attempts.{
  number, Move-number, Move-HasVoted, VotedAt, insert-VotedAt,
}
use ton_labs_node.Session.Round.Invariant.{IsConfigured, LockedIn, IsRound}
use ton_labs_node.Session.Round.Voting.{round_view-Answers}
use ton_labs_node.Session.Round.Blocks.{Keeps, StepsWell}
use ton_labs_node.Session.Round.Stepping.{
  Lasts, max_of-All, weaken-All, attempt_or_new-lem, other_block-total,
}
use ton_labs_node.Session.Round.Recording.{new_last_precommit-Lasts, new_precommitted_block-lem}

module _ (desc : SessionDescription) (weighed : IsWeighed desc) (sized : IsSized desc)
    (configured : IsConfigured desc) (pool : RoundPool) (state : RoundState)
    (inv : IsRound desc state) (src attempt_id : ℕ) (known : src < length desc.sources) where
  -- The round with a new attempt, when that is a move of the one that it replaces.
  module _ (a b : RoundAttempt) (old : IsAttempt desc a) (numbered : a.sequence_number ≡ attempt_id)
      (only : (c : RoundAttempt) → find number attempt_id (iter state.attempts) ≡ some c → c ≡ a)
      (move : Move desc src a b) where
    kept_votes :
        (n : ℕ)
        → VotedAt desc (iter state.attempts) n
        → VotedAt desc (insert number b (iter state.attempts)) n
    kept_votes n =
        let e : number b ≡ attempt_id = Move-number desc src move ∙ numbered in
        insert-VotedAt desc (iter state.attempts) b n inv.attempts_sorted (λ c f h.
          let q : c ≡ a = only c (subst (λ k. find number k (iter state.attempts) ≡ some c) e f) in
          Move-HasVoted desc weighed sized src known move old
            (subst (λ x. HasVoted desc (iter x.votes)) q h))

    pub Lasts-after : Lasts desc (insert number b (iter state.attempts)) state.last_precommit
    Lasts-after =
        let (ys, e, l, all) = inv.lasts in
        (
          ys,
          e,
          l,
          weaken-All (VotedAt desc (iter state.attempts))
              (VotedAt desc (insert number b (iter state.attempts))) ys kept_votes all,
        )

    -- The round after the step, not yet locked before it.
    pub stepped :
        state.precommitted_block ≡ none
        → (p : Option SentBlockPtr)
        → ((c : SentBlockPtr)
            → p ≡ some c
            → LockedIn desc (insert number b (iter state.attempts)) c)
        → (l : Option (List ℕ)) → Lasts desc (insert number b (iter state.attempts)) l
        → let t = record state {
          precommitted_block = p;
          last_precommit = l;
          attempts = some (insert number b (iter state.attempts));
        } in
          IsRound desc t × Keeps state t
    stepped open_round p locks l lasts = (
      record {
        firsts = inv.firsts;
        lasts = lasts;
        blocks_sorted = inv.blocks_sorted;
        blocks = inv.blocks;
        attempts_sorted = insert-IsSorted number b (iter state.attempts) inv.attempts_sorted;
        attempts_kept =
            insert-All number (IsAttempt desc) b (iter state.attempts)
              (Move-IsAttempt desc weighed sized src known move old) inv.attempts_kept;
        signed = inv.signed;
        verified = λ i g q. let (c, e, v) = inv.verified i g q in absurd (cc (e, open_round));
        locked = locks;
      },
      record { number_kept = refl; lock_kept = λ c e. absurd (cc (e, open_round)) },
    )

  -- A message for an attempt keeps the invariant, and nothing panics: the attempt of the last
  -- precommits is there and has a voted block, a precommit has a voted block, and so has an attempt
  -- whose precommits reach the cutoff.
  pub apply_action_on_attempt-StepsWell :
      (message : Message)
      → IsAttemptMessage message
      → StepsWell desc state (apply_action_on_attempt desc state pool src attempt_id message)
  unfolding apply_action_on_attempt
  apply_action_on_attempt-StepsWell message for_attempt =
      elim (Option-cases state.precommitted_block) [
        | inr (c, e) ↦
            let locked : is_some state.precommitted_block ≡ true = ap is_some e in
            (state, rw locked refl, inv, record { number_kept = refl; lock_kept = λ b q. q })
        | inl e ↦
            let unlocked : is_some state.precommitted_block ≡ false = ap is_some e in
            let (a, ea, old, numbered, only) =
              attempt_or_new-lem desc weighed sized configured pool state inv src attempt_id
                known in
            let (o, eo) = first_voted_total desc weighed (iter a.votes) old.candidates in
            let (b, eb, move) =
              apply_action-Move desc weighed sized pool.vote (round_view desc state) src attempt_id
                known (round_view-Answers desc weighed configured state inv src known attempt_id) a
                old message for_attempt in
            let good = Move-IsAttempt desc weighed sized src known move old in
            let n : b.sequence_number ≡ attempt_id = Move-number desc src move ∙ numbered in
            let (v, ev) = first_voted_total desc weighed (iter b.votes) good.candidates in
            let (p, ep, locks) =
              new_precommitted_block-lem desc weighed sized state inv src attempt_id known b good n
                v ev in
            let (ys, ey, ly, all) = inv.lasts in
            let last =
              max_of-All (VotedAt desc (iter state.attempts)) (iter state.last_precommit) (inl refl)
                (rw ey all) in
            let (appears, ex) =
              other_block-total desc weighed sized configured pool state inv src attempt_id known
                (max_of (iter state.last_precommit)) v last in
            let (l, el, hl) =
              new_last_precommit-Lasts desc weighed sized state inv src attempt_id known b good n v
                ev (Lasts-after a b old numbered only move) appears ex in
            let (kept, steps) = stepped a b old numbered only move e p locks l hl in
            (
              record state {
                precommitted_block = p;
                last_precommit = l;
                attempts = some (insert number b (iter state.attempts));
              },
              rw
                  (
                    unlocked,
                    ea,
                    eo,
                    eb,
                    ev,
                    ep,
                    el,
                    push-eq-insert number pool.attempt state.attempts b inv.attempts_sorted,
                  )
                  refl,
              kept,
              steps,
            )
      ]
