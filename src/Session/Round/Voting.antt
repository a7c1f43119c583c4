-- ===== src/Session/Round/Voting.antt =====
-- The choice of a block to vote for in a round with the invariant (round.rs,
-- `choose_block_to_vote`).
use ton_labs_node.Base.{
  ℕ, ◌+◌, ◌<◌, ◌≡◌, refl, sym, ◌∙◌, true, List, [], ◌∷◌, length, get_elem?-some, All-get, ltb,
  if◌then◌else◌, Option, none, some, is_some, u32, All, done, arith, Bool-cases, Option-cases, inl,
  inr,
}
use ton_labs_node.Session.Description.{SessionDescription, ℤ, pos, get_max_priority}
use ton_labs_node.Session.Description.Weights.{IsWeighed}
use ton_labs_node.Session.SortedVector.{iter}
use ton_labs_node.Session.SortedVector.Order.{find, find-All}
use ton_labs_node.Session.SentBlock.{SentBlockPtr}
use ton_labs_node.Session.BlockCandidate
use ton_labs_node.Session.BlockCandidate.{BlockCandidate, check_block_is_approved}
use ton_labs_node.Session.BlockCandidate.Approvals.{approved_total}
use ton_labs_node.Session.Attempt.{RoundAttempt}
use ton_labs_node.Session.Attempt.Invariant.{IsAttempt, first_voted_total}
use ton_labs_node.Session.Attempt.Moves.{Answers}
use ton_labs_node.Session.Round.{
  RoundState, last_precommit_block, newest_voted, i32, lt_int, candidate_priority, better,
  best_from, best_block, fast_choice, unlocked_choice, choose_block_to_vote, slow_mode, round_view,
  candidate_in,
}
use ton_labs_node.Session.Round.Attempts.{get_attempt-find, VotedAt}
use ton_labs_node.Session.Round.Invariant.{IsConfigured, IsRoundCandidate, IsRound}

pub candidate_in-find :
    (candidates : List BlockCandidate) (k : ℕ)
    → candidate_in candidates k ≡ find BlockCandidate.get_id k candidates
unfolding candidate_in find
candidate_in-find [] k = refl
candidate_in-find (c ∷ candidates) k = ground (arith, candidate_in-find candidates k)

pub i32_small : (n : ℕ) → n < 2147483648 → i32 n ≡ pos n
unfolding i32
i32_small n h = ground arith

module _ (desc : SessionDescription) (weighed : IsWeighed desc) (configured : IsConfigured desc)
    (n : ℕ) where
  -- A candidate of the round has a rank.
  pub rank_total :
      (candidate : BlockCandidate)
      → IsRoundCandidate desc n candidate
      → (p : ℕ) × (candidate_priority desc n candidate ≡ done (pos p))
  unfolding candidate_priority
  rank_total candidate h = elim (Option-cases candidate.block) [
    | inl e ↦ (
      u32 (get_max_priority desc + 1),
      rw e (
          rw (i32_small (u32 (get_max_priority desc + 1)) (omega (arith, configured.candidates)))
            refl),
    )
    | inr (b, e) ↦ let (p, q) = (h.proposed b e).1 in (p, rw e q)
  ]

  -- One candidate of the search: it becomes the best one when it is approved and comes before it.
  better_total :
      (best : ℤ × Option SentBlockPtr) (candidate : BlockCandidate)
      → IsRoundCandidate desc n candidate
      → (next : ℤ × Option SentBlockPtr) × (better desc n best candidate ≡ done next)
  unfolding better lt_int
  better_total best candidate h =
      let (approved, e) = approved_total desc candidate weighed h.entries in
      let (p, q) = rank_total candidate h in
      elim (Bool-cases approved) [
        | inl t ↦ (
          (if lt_int (pos p) best.0 then (pos p, some candidate.block) else best),
          rw (e, t, q) (ground arith),
        )
        | inr t ↦ (best, rw (e, t) refl)
      ]

  best_from_total :
      (best : ℤ × Option SentBlockPtr) (candidates : List BlockCandidate)
      → All (IsRoundCandidate desc n) candidates
      → (last : ℤ × Option SentBlockPtr) × (best_from desc n best candidates ≡ done last)
  unfolding best_from
  best_from_total best [] h = (best, refl)
  best_from_total best (c ∷ candidates) h =
      let (next, e) = better_total best c h.0 in
      let (last, q) = best_from_total next candidates h.1 in (last, rw e q)

  best_block_total :
      (candidates : List BlockCandidate)
      → All (IsRoundCandidate desc n) candidates
      → (o : Option SentBlockPtr) × (best_block desc n candidates ≡ done o)
  unfolding best_block
  best_block_total candidates h =
      let m = i32 (u32 (get_max_priority desc + 2)) in
      let (last, e) = best_from_total (m, none) candidates h in
      ((if lt_int last.0 m then last.1 else none), rw e refl)

module _ (desc : SessionDescription) (weighed : IsWeighed desc) where
  newest_voted_total :
      (attempts : List RoundAttempt)
      → All (IsAttempt desc) attempts
      → (o : Option SentBlockPtr) × (newest_voted desc attempts ≡ done o)
  unfolding newest_voted
  newest_voted_total [] h = (none, refl)
  newest_voted_total (a ∷ attempts) h =
      let (o, e) = newest_voted_total attempts h.1 in
      let (v, q) = first_voted_total desc weighed (iter a.votes) h.0.candidates in
      ((if is_some o then o else v), ground arith)

module _ (desc : SessionDescription) (weighed : IsWeighed desc) (configured : IsConfigured desc)
    (state : RoundState) (inv : IsRound desc state) (src : ℕ)
    (known : src < length desc.sources) where
  -- The block of the last precommit is found.
  last_total :
      (last : ℕ)
      → VotedAt desc (iter state.attempts) last
      → ltb 0 last ≡ true
      → (b : SentBlockPtr) × (last_precommit_block desc state.attempts last ≡ done (some b))
  unfolding last_precommit_block
  last_total last (inl e) h = ground arith
  last_total last (inr (a, f, (b, v))) h =
      (b, rw (get_attempt-find state.attempts last inv.attempts_sorted, f) (rw v refl))

  -- In a weighed and configured session the choice of a block to vote for, for a known validator,
  -- returns in a round with the invariant: in particular the attempt of the last precommit is
  -- there and has a voted block.
  pub choose_block_to_vote-total :
      (attempt_id : ℕ) (vote_for : Option SentBlockPtr)
      → (o : Option SentBlockPtr) × (choose_block_to_vote desc state src attempt_id vote_for
          ≡ done o)
  unfolding choose_block_to_vote unlocked_choice fast_choice
  choose_block_to_vote-total attempt_id vote_for =
      let (xs, ex, lx) = inv.firsts in
      let (ys, ey, ly, voted) = inv.lasts in
      let (first, f) = get_elem?-some xs src (omega arith) in
      let (last, l) = get_elem?-some ys src (omega arith) in
      elim (Bool-cases (is_some state.sent_blocks)) [
        | inr t ↦ (none, rw t refl)
        | inl t ↦ elim (Bool-cases (ltb 0 last)) [
          | inl u ↦
              let (b, e) =
                last_total last (All-get (VotedAt desc (iter state.attempts)) ys src last voted l)
                  u in
              (some b, rw (t, ey, l, u) e)
          | inr u ↦ elim (Bool-cases (slow_mode desc first attempt_id)) [
            | inl s ↦ (vote_for, rw (t, ey, l, u, ex, f, s) refl)
            | inr s ↦
                let (o, e) =
                  newest_voted_total desc weighed (iter state.attempts) inv.attempts_kept in
                let (b, q) =
                  best_block_total desc weighed configured state.sequence_number
                    (iter state.sent_blocks) inv.blocks in
                ((if is_some o then o else b), rw (t, ey, l, u, ex, f, s) (ground arith))
          ]
        ]
      ]

  -- So the round answers its attempts.
  pub round_view-Answers : (attempt_id : ℕ) → Answers desc (round_view desc state) src attempt_id
  round_view-Answers attempt_id =
      let (xs, ex, lx) = inv.firsts in
      let (first, f) = get_elem?-some xs src (omega arith) in
      record {
        first = (first, rw ex (rw f refl));
        choice = choose_block_to_vote-total attempt_id;
        block = λ id candidate e.
            (find-All BlockCandidate.get_id (IsRoundCandidate desc state.sequence_number) id
              (iter state.sent_blocks) candidate inv.blocks
              (sym (candidate_in-find (iter state.sent_blocks) id) ∙ e)).0.entries;
      }
