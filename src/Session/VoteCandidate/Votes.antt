-- ===== src/Session/VoteCandidate/Votes.antt =====
-- What the operations do to the votes for a block (vote_candidate.rs).
use ton_labs_node.Base.{
  ℕ, zero, suc, ◌<◌, ◌≡◌, refl, sym, ◌∙◌, set_self, Bool, true, false, leb, List, [], ◌∷◌, length,
  set, get_elem?, get_elem?-some, some, done, ◌>>=◌, arith, Bool-cases, ◌⊎◌, inl, inr, ◌≢◌,
  length-set, length-replicate, get_elem?-set_self, get_elem?-set_ne, u32,
}
use ton_labs_node.Session.Description.{SessionDescription, Source}
use ton_labs_node.Session.Description.Weights.{
  IsWeighed, PassesMore, weigh_mono, weigh-lem, weight_of, weight_both, quorums_overlap,
}
use ton_labs_node.Session.Vector.Merging.{merge_bools-lem, or_items, length-or_items, or_items_idem}
use ton_labs_node.Session.SentBlock.{SentBlockPtr}
use ton_labs_node.Session.VoteCandidate.{
  VoteCandidate, get_id, voted, check_block_is_voted, check_block_is_voted_by, push, merge,
  create_unvoted,
}

-- One flag for each validator.
pub record IsVote (desc : SessionDescription) (vote : VoteCandidate) : Type 0 where
  pub flags : length vote.voted_by ≡ length desc.sources

-- The candidate with one more vote, and with the votes of another one.
abbrev pub with_vote : VoteCandidate → ℕ → VoteCandidate
with_vote vote src = record vote { voted_by = set vote.voted_by src true }

abbrev pub united : VoteCandidate → VoteCandidate → VoteCandidate
united left right = record left { voted_by = or_items left.voted_by right.voted_by }

set_more : (xs : List Bool) (i : ℕ) → PassesMore voted voted xs (set xs i true)
set_more [] i = tt
set_more (x ∷ xs) zero = ((λ h. refl), more_refl xs)
  where
    more_refl : (ys : List Bool) → PassesMore voted voted ys ys
    more_refl [] = tt
    more_refl (y ∷ ys) = ((λ h. h), more_refl ys)
set_more (x ∷ xs) (suc i) = ((λ h. h), set_more xs i)

or_more :
    (xs ys : List Bool)
    → length xs ≡ length ys
    → PassesMore voted voted xs (or_items xs ys) × PassesMore voted voted ys (or_items xs ys)
or_more [] [] h = (tt, tt)
or_more [] (y ∷ ys) h = absurd (omega arith)
or_more (x ∷ xs) [] h = absurd (omega arith)
or_more (x ∷ xs) (y ∷ ys) h =
    let rest = or_more xs ys (omega arith) in ((ground arith, rest.0), (ground arith, rest.1))

module _ (desc : SessionDescription) where
  pub create_unvoted-IsVote :
      (block : SentBlockPtr)
      → length desc.sources < 4294967296
      → IsVote desc (create_unvoted desc block)
  unfolding create_unvoted
  create_unvoted-IsVote block h = record {
    flags = length-replicate (u32 (length desc.sources)) false ∙ omega arith;
  }

  pub voted_total :
      IsWeighed desc
      → (vote : VoteCandidate) → IsVote desc vote
      → (b : Bool) × (check_block_is_voted desc vote ≡ done b)
  unfolding check_block_is_voted
  voted_total weighed vote v = (
    leb desc.cutoff_weight (weight_of voted desc.sources vote.voted_by),
    weigh-lem voted desc vote.voted_by weighed (omega (arith, v.flags)),
  )

  module _ (vote : VoteCandidate) (v : IsVote desc vote) (src : ℕ)
      (known : src < length desc.sources) where
    -- A push sets the flag of the validator, and nothing else: the block and the other flags stay,
    -- and a validator that has voted already leaves the candidate as it is.
    pub push-lem : push vote src ≡ done (with_vote vote src)
    unfolding push
    push-lem =
        let (b, e) = get_elem?-some vote.voted_by src (omega (arith, v.flags)) in
        elim (Bool-cases b) [
          | inl t ↦ ground (arith, set_self vote.voted_by src b e)
          | inr t ↦ ground (arith, length-set vote.voted_by src true)
        ]

    pub with_vote-IsVote : IsVote desc (with_vote vote src)
    with_vote-IsVote = record { flags = length-set vote.voted_by src true ∙ v.flags }

    -- After a push the validator has voted for the block.
    voted_by-push : (push vote src >>= λ w. check_block_is_voted_by w src) ≡ done true
    voted_by-push =
        rw push-lem (rw (get_elem?-set_self vote.voted_by src true (omega (arith, v.flags))) refl)

    -- Another validator has voted for the block after the push exactly when it had before.
    voted_by-push_ne :
        (other : ℕ)
        → src ≢ other
        → (push vote src >>= λ w. check_block_is_voted_by w other)
          ≡ check_block_is_voted_by vote other
    voted_by-push_ne other h =
        rw push-lem (rw (get_elem?-set_ne vote.voted_by src other true h) refl)

    -- A block that is voted stays voted.
    pub voted-push :
        IsWeighed desc
        → check_block_is_voted desc vote ≡ done true
        → check_block_is_voted desc (with_vote vote src) ≡ done true
    unfolding check_block_is_voted
    voted-push w h =
        weigh_mono voted voted desc vote.voted_by (set vote.voted_by src true) w
          (omega (arith, v.flags)) (omega (arith, v.flags, length-set vote.voted_by src true))
          (set_more vote.voted_by src) h

  pub merge_self : (vote : VoteCandidate) → merge vote vote ≡ done vote
  unfolding merge
  merge_self vote = simp merge_bools-lem (ground (arith, or_items_idem vote.voted_by))

  module _ (left right : VoteCandidate) (vl : IsVote desc left) (vr : IsVote desc right)
      (same : get_id left ≡ get_id right) where
    -- Candidates for one block merge without a panic; each validator has voted in the result if it
    -- has in either.
    pub merge-lem : merge left right ≡ done (united left right)
    unfolding merge
    merge-lem = simp merge_bools-lem (ground arith)

    pub united-IsVote : IsVote desc (united left right)
    united-IsVote = record {
      flags = omega (arith, length-or_items left.voted_by right.voted_by, vl.flags, vr.flags);
    }

    -- A block that is voted on either side is voted in the merge.
    pub voted-merge :
        IsWeighed desc
        → (check_block_is_voted desc left ≡ done true)
          ⊎ (check_block_is_voted desc right ≡ done true)
        → check_block_is_voted desc (united left right) ≡ done true
    unfolding check_block_is_voted
    voted-merge w (inl h) =
        weigh_mono voted voted desc left.voted_by _ w (omega (arith, vl.flags))
          (omega (arith, united-IsVote.flags))
          (or_more left.voted_by right.voted_by (vl.flags ∙ sym vr.flags)).0 h
    voted-merge w (inr h) =
        weigh_mono voted voted desc right.voted_by _ w (omega (arith, vr.flags))
          (omega (arith, united-IsVote.flags))
          (or_more left.voted_by right.voted_by (vl.flags ∙ sym vr.flags)).1 h

module _ (desc : SessionDescription) (weighed : IsWeighed desc) where
  -- In a weighed session a block that is voted is voted after a vote of a known validator.
  pub is_voted-push :
      (vote : VoteCandidate)
      → IsVote desc vote
      → (src : ℕ) → src < length desc.sources
      → check_block_is_voted desc vote ≡ done true
      → (push vote src >>= check_block_is_voted desc) ≡ done true
  is_voted-push vote v src known h =
      rw (push-lem desc vote v src known) (voted-push desc vote v src known weighed h)

  -- In a weighed session a block that is voted in one of two candidates for it is voted in their
  -- merge.
  pub is_voted-merge :
      (left right : VoteCandidate)
      → IsVote desc left
      → IsVote desc right
      → get_id left ≡ get_id right
      → (check_block_is_voted desc left ≡ done true) ⊎ (check_block_is_voted desc right ≡ done true)
      → (merge left right >>= check_block_is_voted desc) ≡ done true
  is_voted-merge left right vl vr same h =
      rw (merge-lem desc left right vl vr same) (voted-merge desc left right vl vr same weighed h)

shared_voter :
    (ss : List Source) (xs ys : List Bool)
    → 0 < weight_both voted voted ss xs ys
    → (i : ℕ) × (get_elem? xs i ≡ some true) × (get_elem? ys i ≡ some true)
shared_voter [] xs ys h = absurd (omega arith)
shared_voter (s ∷ ss) [] ys h = absurd (omega arith)
shared_voter (s ∷ ss) (x ∷ xs) [] h = absurd (omega arith)
shared_voter (s ∷ ss) (true ∷ xs) (true ∷ ys) h = (0, refl, refl)
shared_voter (s ∷ ss) (false ∷ xs) (y ∷ ys) h =
    let (i, a, b) = shared_voter ss xs ys (ground arith) in (suc i, a, b)
shared_voter (s ∷ ss) (true ∷ xs) (false ∷ ys) h =
    let (i, a, b) = shared_voter ss xs ys (ground arith) in (suc i, a, b)

-- Two voted candidates have a voter in common.
pub voted_overlap :
    (desc : SessionDescription)
    → IsWeighed desc
    → (v w : VoteCandidate) → IsVote desc v
    → IsVote desc w
    → check_block_is_voted desc v ≡ done true
    → check_block_is_voted desc w ≡ done true
    → (i : ℕ) × (get_elem? v.voted_by i ≡ some true) × (get_elem? w.voted_by i ≡ some true)
unfolding check_block_is_voted
voted_overlap desc weighed v w iv iw hv hw = shared_voter desc.sources v.voted_by w.voted_by (
    omega (
      arith,
      quorums_overlap voted voted desc v.voted_by w.voted_by weighed (omega (arith, iv.flags))
          (omega (arith, iw.flags)) hv hw,
    ))
