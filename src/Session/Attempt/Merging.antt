-- ===== src/Session/Attempt/Merging.antt =====
-- The merge of two attempts (round_attempt.rs, `impl Merge`).
use ton_labs_node.Base.{
  ℕ, ◌≡◌, refl, sym, ◌∙◌, Bool, true, false, List, [], ◌∷◌, Option, none, some, All, done, arith,
  ◌⊎◌, inl, inr, ◌==◌,
}
use ton_labs_node.Session.Description.{SessionDescription}
use ton_labs_node.Session.Description.Weights.{IsWeighed, Passes}
use ton_labs_node.Session.Vector.Merging.{merge_bools-lem, or_items, length-or_items}
use ton_labs_node.Session.SortedVector.{iter}
use ton_labs_node.Session.SortedVector.Order.{find, find-All}
use ton_labs_node.Session.SortedVector.Maps.{MergesWell, IsUnion, merge_wrapped-IsUnion, combine}
use ton_labs_node.Session.VoteCandidate
use ton_labs_node.Session.VoteCandidate.{VoteCandidate, get_id, voted, check_block_is_voted}
use ton_labs_node.Session.VoteCandidate.Votes.{
  IsVote, merge-lem, merge_self, united, united-IsVote, voted-merge,
}
use ton_labs_node.Session.Attempt.{RoundAttempt, AttemptPool, merge, merge_vote_for}
use ton_labs_node.Session.Attempt.Invariant.{HasVoted, IsAttempt, voted-HasVoted, HasVoted-voted}

or-Passes : (xs ys : List Bool) → Passes voted (or_items xs ys) → Passes voted xs ⊎ Passes voted ys
or-Passes [] ys p = inr p
or-Passes (x ∷ xs) [] p = inl p
or-Passes (true ∷ xs) (y ∷ ys) p = inl (inl refl)
or-Passes (false ∷ xs) (y ∷ ys) (inl e) = inr (inl e)
or-Passes (false ∷ xs) (y ∷ ys) (inr p) = elim (or-Passes xs ys p) [
  | inl q ↦ inl (inr q)
  | inr q ↦ inr (inr q)
]

module _ (desc : SessionDescription) where
  pub merge_votes-MergesWell : MergesWell get_id (IsVote desc) VoteCandidate.merge
  merge_votes-MergesWell l r vl vr e =
      (united l r, merge-lem desc l r vl vr e, refl, united-IsVote desc l r vl vr e)

  -- A candidate that both sides hold under `k`.
  abbrev Held : ℕ → Option VoteCandidate → Type 0
  Held k o = (x : VoteCandidate) → o ≡ some x → IsVote desc x × (get_id x ≡ k)

  found-Held :
      (k : ℕ) (votes : List VoteCandidate) → All (IsVote desc) votes → Held k (find get_id k votes)
  found-Held k votes all x e = find-All get_id (IsVote desc) k votes x all e

  combined_voted :
      IsWeighed desc
      → (k : ℕ) (l r m : Option VoteCandidate) → Held k l
      → Held k r
      → combine VoteCandidate.merge l r ≡ done m
      → (w : VoteCandidate) → (l ≡ some w) ⊎ (r ≡ some w)
      → check_block_is_voted desc w ≡ done true
      → (x : VoteCandidate) × (m ≡ some x) × (check_block_is_voted desc x ≡ done true)
  combined_voted weighed k none none m hl hr c w (inl e) y = absurd (cc e)
  combined_voted weighed k none none m hl hr c w (inr e) y = absurd (cc e)
  combined_voted weighed k none (some r) m hl hr c w (inl e) y = absurd (cc e)
  combined_voted weighed k none (some r) m hl hr c w (inr e) y = (w, cc (c, e), y)
  combined_voted weighed k (some l) none m hl hr c w (inl e) y = (w, cc (c, e), y)
  combined_voted weighed k (some l) none m hl hr c w (inr e) y = absurd (cc e)
  combined_voted weighed k (some l) (some r) m hl hr c w o y =
      let (il, kl) = hl l refl in
      let (ir, kr) = hr r refl in
      let q = merge-lem desc l r il ir (kl ∙ sym kr) in
      let f : done (some (united l r)) ≡ done m = rw q at c in
      (
        united l r,
        cc f,
        elim o [
          | inl e ↦
              voted-merge desc l r il ir (kl ∙ sym kr) weighed
                (inl (let g : l ≡ w = cc e in rw g y))
          | inr e ↦
              voted-merge desc l r il ir (kl ∙ sym kr) weighed
                (inr (let g : r ≡ w = cc e in rw g y))
        ],
      )

  module _ (weighed : IsWeighed desc) (pool : AttemptPool) (left right : RoundAttempt)
      (il : IsAttempt desc left) (ir : IsAttempt desc right) where
    -- What the merge makes of the candidates of the two attempts.
    abbrev Votes : Option (List VoteCandidate) → Type 0
    Votes items =
        IsUnion get_id (IsVote desc) pool.vote VoteCandidate.merge merge_votes-MergesWell
          (merge_self desc) pool.votes left.votes right.votes items

    -- A block that is voted on one side is voted in the union of the candidates.
    union-HasVoted :
        (items : Option (List VoteCandidate))
        → Votes items
        → HasVoted desc (iter left.votes) ⊎ HasVoted desc (iter right.votes)
        → HasVoted desc (iter items)
    union-HasVoted items u h =
        let (w, o, y) = voted_side h in
        let k = get_id w in
        let (x, f, z) =
          combined_voted weighed k (find get_id k (iter left.votes))
            (find get_id k (iter right.votes)) (find get_id k (iter items))
            (found-Held k (iter left.votes) il.candidates)
            (found-Held k (iter right.votes) ir.candidates) (u.2 k) w o y in
        voted-HasVoted desc weighed k x (iter items) u.1 f z
      where
        voted_side :
            HasVoted desc (iter left.votes) ⊎ HasVoted desc (iter right.votes)
            → (w : VoteCandidate) × ((find get_id (get_id w) (iter left.votes) ≡ some w)
                ⊎ (find get_id (get_id w) (iter right.votes) ≡ some w))
              × (check_block_is_voted desc w ≡ done true)
        voted_side (inl v) =
            let (w, f, y) =
              HasVoted-voted desc weighed (iter left.votes) il.sorted il.candidates v in
            (w, inl f, y)
        voted_side (inr v) =
            let (w, f, y) =
              HasVoted-voted desc weighed (iter right.votes) ir.sorted ir.candidates v in
            (w, inr f, y)

    -- In a weighed session two attempts with the invariant and one sequence number merge without a
    -- panic. The result has the invariant; it holds, under each identifier, the merge of what the
    -- two attempts hold under it, and its precommits are those of either.
    pub merge-IsAttempt :
        left.sequence_number ≡ right.sequence_number
        → (m : RoundAttempt) × (merge pool left right ≡ done m)
          × IsAttempt desc m
          × ((k : ℕ)
              → combine VoteCandidate.merge
                  (find get_id k (iter left.votes))
                  (find get_id k (iter right.votes))
                ≡ done (find get_id k (iter m.votes)))
          × (m.precommitted ≡ or_items left.precommitted right.precommitted)
    unfolding merge
    merge-IsAttempt same =
        let (items, e, u) =
          merge_wrapped-IsUnion get_id (IsVote desc) pool.vote VoteCandidate.merge
            merge_votes-MergesWell (merge_self desc) pool.votes left.votes right.votes il.sorted
            ir.sorted il.candidates ir.candidates in
        let p = or_items left.precommitted right.precommitted in
        let m = record left {
          votes = items;
          precommitted = p;
          vote_for = merge_vote_for pool.sent_block left.vote_for right.vote_for;
        } in
        let b : (left.sequence_number == right.sequence_number) ≡ true = ground arith in
        (
          m,
          rw (b, merge_bools-lem left.precommitted right.precommitted, e) refl,
          record {
            sorted = u.0;
            candidates = u.1;
            flags =
                omega
                  (arith, length-or_items left.precommitted right.precommitted, il.flags, ir.flags);
            backed = λ q.
                union-HasVoted items u (elim (or-Passes left.precommitted right.precommitted q) [
                  | inl a ↦ inl (il.backed a)
                  | inr a ↦ inr (ir.backed a)
                ]);
          },
          u.2,
          refl,
        )
