-- ===== src/Session/Round/Proposing/Proposals.antt =====
-- The proposals of a round with the invariant (round.rs, `generate_vote_for`).
use native.Mathlib.Nat.{mod-lt}
use ton_labs_node.Base.{
  ℕ, zero, suc, ◌<◌, ◌%◌, ◌≡◌, refl, ap, ◌∙◌, true, List, [], ◌∷◌, length, get_elem?,
  get_elem?-some, lt→ltb, ◌==◌, some, All, done, arith, Bool-cases, inl, inr,
}
use ton_labs_node.Session.Description.{SessionDescription, get_vote_for_author}
use ton_labs_node.Session.Description.Weights.{IsWeighed}
use ton_labs_node.Session.Description.Priority.{IsSized, vote_for_author_total}
use ton_labs_node.Session.SortedVector.{iter}
use ton_labs_node.Session.BlockCandidate
use ton_labs_node.Session.BlockCandidate.{BlockCandidate, check_block_is_approved}
use ton_labs_node.Session.BlockCandidate.Approvals.{approved_total}
use ton_labs_node.Session.Message.{Message}
use ton_labs_node.Session.Round.{
  RoundState, check_need_generate_vote_for, some_approved, need_vote_for,
}
use ton_labs_node.Session.Round.Attempts.{get_attempt-find}
use ton_labs_node.Session.Round.Invariant.{IsRoundCandidate, IsRound}
use ton_labs_node.Session.Round.Proposing.{approved_ids, generate_vote_for}

-- The identifier is that of an approved candidate of the list.
abbrev pub ApprovedId : SessionDescription → List BlockCandidate → ℕ → Type 0
ApprovedId desc cs k =
    (j : ℕ) × (c : BlockCandidate) × (get_elem? cs j ≡ some c)
    × (check_block_is_approved desc c ≡ done true)
    × (BlockCandidate.get_id c ≡ k)

module _ (desc : SessionDescription) (weighed : IsWeighed desc) (n : ℕ) where
  approved_ids-lem :
      (cs : List BlockCandidate)
      → All (IsRoundCandidate desc n) cs
      → (ids : List ℕ) × (approved_ids desc cs ≡ done ids)
        × ((i k : ℕ) → get_elem? ids i ≡ some k → ApprovedId desc cs k)
        × (some_approved desc cs ≡ done true → 0 < length ids)
  unfolding approved_ids some_approved
  approved_ids-lem [] h = ([], refl, (λ i k e. absurd (cc e)), λ e. absurd (cc e))
  approved_ids-lem (c ∷ cs) h =
      let (b, e) = approved_total desc c weighed h.0.entries in
      let (ids, q, found, more) = approved_ids-lem cs h.1 in
      let later : (k : ℕ) → ApprovedId desc cs k → ApprovedId desc (c ∷ cs) k =
        (λ k (j, d, f, g, z). (suc j, d, f, g, z)) in
      elim (Bool-cases b) [
        | inr t ↦ (
          ids,
          rw (e, t, q) refl,
          (λ i k f. later k (found i k f)),
          λ f. more (let z : some_approved desc cs ≡ done true = rw (e, t) at f in z),
        )
        | inl t ↦ (
          BlockCandidate.get_id c ∷ ids,
          rw (e, t, q) refl,
          place ids found (e ∙ ap done t),
          λ f. omega arith,
        )
      ]
    where
      place :
          (ids : List ℕ)
          → ((i k : ℕ) → get_elem? ids i ≡ some k → ApprovedId desc cs k)
          → check_block_is_approved desc c ≡ done true
          → (i k : ℕ) → get_elem? (BlockCandidate.get_id c ∷ ids) i ≡ some k
          → ApprovedId desc (c ∷ cs) k
      place ids found e zero k f = (0, c, refl, e, cc)
      place ids found e (suc i) k f = let (j, d, g, a, z) = found i k f in (suc j, d, g, a, z)

module _ (desc : SessionDescription) (weighed : IsWeighed desc) (sized : IsSized desc)
    (state : RoundState) (inv : IsRound desc state) (src attempt_id : ℕ)
    (known : src < length desc.sources) where
  needed :
      check_need_generate_vote_for desc state src attempt_id ≡ done true
      → (get_vote_for_author desc attempt_id ≡ done src)
        × (some_approved desc (iter state.sent_blocks) ≡ done true)
  unfolding check_need_generate_vote_for need_vote_for
  needed h =
      let (author, a) = vote_for_author_total desc sized attempt_id in
      let (xs, ex, lx) = inv.firsts in
      let (first, f) = get_elem?-some xs src (omega arith) in
      let g = get_attempt-find state.attempts attempt_id inv.attempts_sorted in
      ground (arith, a, ex, f, g)

  -- In a weighed and sized session and a round with the invariant, a known validator that has to
  -- propose a vote-for block does so without a panic, whatever the random number, and names an
  -- approved candidate of the round.
  pub generate_vote_for-approved :
      (random : ℕ)
      → check_need_generate_vote_for desc state src attempt_id ≡ done true
      → (k : ℕ) × (generate_vote_for desc random state src attempt_id
          ≡ done (Message.vote_for state.sequence_number attempt_id k))
        × ApprovedId desc (iter state.sent_blocks) k
  unfolding generate_vote_for
  generate_vote_for-approved random h =
      let (author, approved) = needed h in
      let (ids, e, found, more) =
        approved_ids-lem desc weighed state.sequence_number (iter state.sent_blocks) inv.blocks in
      let some_ids = more approved in
      let (k, q) = get_elem?-some ids (random % length ids) (mod-lt random some_ids) in
      let same : (src == src) ≡ true = ground arith in
      (k, rw (author, same, e, lt→ltb _ _ some_ids, q) refl, found (random % length ids) k q)
