-- ===== src/Session/Attempt/Votes.antt =====
-- In an attempt that actions alone have made, a validator votes once and one block at most is voted
-- (round_attempt.rs).
use ton_labs_node.Base.{
  ℕ, zero, suc, ◌<◌, ◌≡◌, sym, ◌∙◌, subst, true, false, List, [], ◌∷◌, length, replicate, get_elem?,
  get_elem?-set_ne, some, All, done, arith, Bool-cases, Option-cases, ◌⊎◌, inl, inr, ◌==◌,
  if◌then◌else◌, u32, length-replicate,
}
use ton_labs_node.Session.Description.{SessionDescription}
use ton_labs_node.Session.Description.Weights.{IsWeighed, Passes, weigh-Passes}
use ton_labs_node.Session.Description.Priority.{IsSized}
use ton_labs_node.Session.SortedVector.{iter}
use ton_labs_node.Session.SortedVector.Order.{IsSorted, find, insert, find-insert, find-All}
use ton_labs_node.Session.SentBlock
use ton_labs_node.Session.SentBlock.{SentBlockPtr}
use ton_labs_node.Session.VoteCandidate
use ton_labs_node.Session.VoteCandidate.{VoteCandidate, get_id, voted, check_block_is_voted}
use ton_labs_node.Session.VoteCandidate.Votes.{IsVote, voted_overlap}
use ton_labs_node.Session.Attempt.{
  RoundAttempt, received_from, vote_candidate_of, create_empty, get_voted_block,
  check_attempt_is_precommitted,
}
use ton_labs_node.Session.Attempt.Invariant.{
  IsAttempt, next_vote, vote_candidate_cases, vote_candidate-IsVote,
}
use ton_labs_node.Session.Attempt.Moves.{
  Move, stays, votes_for, precommits, proposes, Move-IsAttempt,
}

-- The validator `i` has voted for the candidate.
abbrev VotedBy : ℕ → VoteCandidate → Type 0
VotedBy i vote = get_elem? vote.voted_by i ≡ some true

-- No validator has voted for two candidates.
abbrev VotesOnce : List VoteCandidate → Type 0
VotesOnce votes =
    (j k i : ℕ) (v w : VoteCandidate)
    → find get_id j votes ≡ some v
    → find get_id k votes ≡ some w
    → VotedBy i v
    → VotedBy i w
    → j ≡ k

not_received :
    (votes : List VoteCandidate) (src k : ℕ) (w : VoteCandidate)
    → received_from votes src ≡ done false
    → find get_id k votes ≡ some w
    → VotedBy src w
    → ⊥
unfolding received_from find
not_received [] src k w r f v = cc
not_received (x ∷ votes) src k w r f v = elim (Option-cases (get_elem? x.voted_by src)) [
  | inl e ↦ cc (rw e at r)
  | inr (b, e) ↦ ground (arith, not_received votes src k w)
]

replicate-false : (n i : ℕ) → get_elem? (replicate n false) i ≡ some true → ⊥
replicate-false zero i h = cc
replicate-false (suc n) zero h = cc
replicate-false (suc n) (suc i) h = replicate-false n i h

module _ (desc : SessionDescription) (sized : IsSized desc) (src : ℕ) (votes : List VoteCandidate)
    (candidates : All (IsVote desc) votes) (b : SentBlockPtr) where
  -- A vote in the new candidate is the new one, or was in the old candidate.
  old_vote :
      (i : ℕ)
      → VotedBy i (next_vote desc votes b src)
      → (i ≡ src)
        ⊎ ((c : VoteCandidate) × (find get_id (SentBlock.get_id b) votes ≡ some c) × VotedBy i c)
  old_vote i h = elim (Bool-cases (src == i)) [
    | inl t ↦ inl (ground arith)
    | inr t ↦
        let c = vote_candidate_of desc votes b in
        let kept : VotedBy i c =
          sym (get_elem?-set_ne c.voted_by src i true (λ e. ground arith)) ∙ h in
        elim (vote_candidate_cases desc sized votes candidates b) [
          | inl e ↦ inr (c, e, kept)
          | inr (_, q) ↦ absurd (
              replicate-false (u32 (length desc.sources)) i
                (unfold VoteCandidate.create_unvoted in (rw q at kept)))
        ]
  ]

  module _ (sorted : IsSorted get_id votes) (fresh : received_from votes src ≡ done false)
      (once : VotesOnce votes) where
    found_in :
        (j : ℕ) (v : VoteCandidate)
        → find get_id j (insert get_id (next_vote desc votes b src) votes) ≡ some v
        → ((v ≡ next_vote desc votes b src) × (j ≡ SentBlock.get_id b))
          ⊎ (find get_id j votes ≡ some v)
    found_in j v f =
        let nv = next_vote desc votes b src in
        let same = (vote_candidate-IsVote desc sized votes candidates b).1 in
        let e : (if get_id nv == j then some nv else find get_id j votes) ≡ some v =
          sym (find-insert get_id j nv votes sorted) ∙ f in
        elim (Bool-cases (get_id nv == j)) [
          | inl t ↦ inl (let q : some nv ≡ some v = rw t at e in cc, ground (arith, same))
          | inr t ↦ inr (rw t at e)
        ]

    -- The new candidate and another one of the list have no voter in common.
    new_old :
        (k i : ℕ) (w : VoteCandidate)
        → find get_id k votes ≡ some w
        → VotedBy i (next_vote desc votes b src)
        → VotedBy i w
        → SentBlock.get_id b ≡ k
    new_old k i w f hv hw = elim (old_vote i hv) [
      | inl e ↦ absurd (not_received votes src k w fresh f (subst (λ x. VotedBy x w) e hw))
      | inr (c, q, hc) ↦ once (SentBlock.get_id b) k i c w q f hc hw
    ]

    insert-VotesOnce : VotesOnce (insert get_id (next_vote desc votes b src) votes)
    insert-VotesOnce j k i v w fv fw hv hw = elim (found_in j v fv) [
      | inl (ev, ej) ↦ elim (found_in k w fw) [
        | inl (_, ek) ↦ ej ∙ sym ek
        | inr old ↦ ej ∙ new_old k i w old (subst (VotedBy i) ev hv) hw
      ]
      | inr old ↦ elim (found_in k w fw) [
        | inl (ew, ek) ↦ sym (ek ∙ new_old j i v old (subst (VotedBy i) ew hw) hv)
        | inr old' ↦ once j k i v w old old' hv hw
      ]
    ]

-- The attempts that validators' actions make of an empty one.
pub data Reached (desc : SessionDescription) : RoundAttempt → Type 0 where
  begin : (sequence_number : ℕ) → Reached desc (create_empty desc sequence_number)
  act :
      {a b : RoundAttempt} (src : ℕ)
      → src < length desc.sources
      → Reached desc a
      → Move desc src a b
      → Reached desc b

module _ (desc : SessionDescription) (weighed : IsWeighed desc) (sized : IsSized desc) where
  pub create_empty-IsAttempt : (n : ℕ) → IsAttempt desc (create_empty desc n)
  unfolding create_empty
  create_empty-IsAttempt n = record {
    sorted = tt;
    candidates = tt;
    flags = length-replicate (u32 (length desc.sources)) false ∙ omega arith;
    backed = λ p. absurd (no_flags (u32 (length desc.sources)) p);
  }
    where
      no_flags : (m : ℕ) → Passes voted (replicate m false) → ⊥
      no_flags zero p = p
      no_flags (suc m) (inl e) = cc
      no_flags (suc m) (inr p) = no_flags m p

  -- The invariant holds of every reached attempt.
  pub Reached-IsAttempt : {a : RoundAttempt} → Reached desc a → IsAttempt desc a
  Reached-IsAttempt (begin n) = create_empty-IsAttempt n
  Reached-IsAttempt (act src known r m) =
      Move-IsAttempt desc weighed sized src known m (Reached-IsAttempt r)

  Move-VotesOnce :
      (src : ℕ) {a b : RoundAttempt}
      → Move desc src a b
      → IsAttempt desc a
      → VotesOnce (iter a.votes)
      → VotesOnce (iter b.votes)
  Move-VotesOnce src stays inv once = once
  Move-VotesOnce src {a} (votes_for b fresh) inv once =
      insert-VotesOnce desc sized src (iter a.votes) inv.candidates b inv.sorted fresh once
  Move-VotesOnce src (precommits h) inv once = once
  Move-VotesOnce src (proposes b h) inv once = once

  -- In a reached attempt no validator has voted for two candidates.
  Reached-VotesOnce : {a : RoundAttempt} → Reached desc a → VotesOnce (iter a.votes)
  unfolding create_empty find
  Reached-VotesOnce (begin n) = λ j k i v w fv fw hv hw. absurd (cc fv)
  Reached-VotesOnce (act src known r m) =
      Move-VotesOnce src m (Reached-IsAttempt r) (Reached-VotesOnce r)

  -- Two voted candidates of a reached attempt are one.
  pub Reached-unique :
      (a : RoundAttempt)
      → Reached desc a
      → (j k : ℕ) (v w : VoteCandidate) → find get_id j (iter a.votes) ≡ some v
      → find get_id k (iter a.votes) ≡ some w
      → check_block_is_voted desc v ≡ done true
      → check_block_is_voted desc w ≡ done true
      → j ≡ k
  Reached-unique a r j k v w fv fw hv hw =
      let all = (Reached-IsAttempt r).candidates in
      let (i, both_v, both_w) =
        voted_overlap desc weighed v w (find-All get_id (IsVote desc) j (iter a.votes) v all fv).0
          (find-All get_id (IsVote desc) k (iter a.votes) w all fw).0 hv hw in
      Reached-VotesOnce r j k i v w fv fw both_v both_w

  -- In a weighed and sized session an attempt with the invariant whose precommits reach the cutoff
  -- has a voted block.
  pub precommitted-voted :
      (a : RoundAttempt)
      → IsAttempt desc a
      → check_attempt_is_precommitted desc a ≡ done true
      → (b : SentBlockPtr) × (get_voted_block desc a ≡ done (some b))
  unfolding check_attempt_is_precommitted
  precommitted-voted a inv h =
      inv.backed (weigh-Passes voted desc a.precommitted weighed (omega (arith, inv.flags)) h)
