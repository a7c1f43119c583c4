-- ===== src/Session/OldRound/Merging.antt =====
-- The merge of an old round with another state of the same round (old_round.rs, `merge_round` and
-- `impl Merge`).
use ton_labs_node.Base.{
  ℕ, zero, suc, ◌≡◌, refl, sym, ◌∙◌, true, List, [], ◌∷◌, length, get_elem?, ◌==◌, Option, none,
  some, is_some, done, arith, Bool-cases, Option-cases, ◌⊎◌, inl, inr, subst,
}
use ton_labs_node.Session.Description.{SessionDescription}
use ton_labs_node.Session.Description.Weights.{IsWeighed, weigh_mono}
use ton_labs_node.Session.Merge.{Same}
use ton_labs_node.Session.SortedVector.{iter}
use ton_labs_node.Session.SortedVector.Order.{find, find-All}
use ton_labs_node.Session.SentBlock
use ton_labs_node.Session.SentBlock.{SentBlockPtr}
use ton_labs_node.Session.BlockCandidate
use ton_labs_node.Session.BlockCandidate.{BlockCandidate, Signature, lex_lt}
use ton_labs_node.Session.BlockCandidate.Approvals.{
  merge_signatures-lem, pick_items, pick_items_idem, length-pick_items, pick_more,
}
use ton_labs_node.Session.Round.{RoundState}
use ton_labs_node.Session.Round.Actions.{signature_accepted}
use ton_labs_node.Session.Round.Invariant.{IsRound, IsRoundCandidate}
use ton_labs_node.Session.Round.Voting.{candidate_in-find}
use ton_labs_node.Session.OldRound.{
  OldRoundState, get_block_id, merge, merge_round, merge_approvals,
}
use ton_labs_node.Session.OldRound.Invariant.{IsOldRound, ApprovedFor, StaysCommitted, approved_of}

-- Every merged entry is one of the two.
pick_items-get :
    (xs ys : List (Option Signature)) (i : ℕ) (g : Signature)
    → get_elem? (pick_items xs ys) i ≡ some (some g)
    → (get_elem? xs i ≡ some (some g)) ⊎ (get_elem? ys i ≡ some (some g))
pick_items-get [] ys i g e = inr e
pick_items-get (x ∷ xs) [] i g e = inl e
pick_items-get (some x ∷ xs) (some y ∷ ys) zero g e = elim (Bool-cases (lex_lt x y)) [
  | inl t ↦ inl (rw t at e)
  | inr t ↦ inr (rw t at e)
]
pick_items-get (none ∷ xs) (y ∷ ys) zero g e = inr e
pick_items-get (some x ∷ xs) (none ∷ ys) zero g e = inl e
pick_items-get (x ∷ xs) (y ∷ ys) (suc i) g e = pick_items-get xs ys i g e

-- The old round with other signatures and approvals besides its own.
abbrev united : OldRoundState → List (Option Signature) → List (Option Signature) → OldRoundState
united left signatures approvals = record left {
  signatures = pick_items left.signatures signatures;
  approve_signatures = pick_items left.approve_signatures approvals;
}

module _ (desc : SessionDescription) (weighed : IsWeighed desc) (pool : Same Signature) (n : ℕ)
    (left : OldRoundState) (inv : IsOldRound desc n left) where
  -- The old round with the signatures and the approvals of another state of the round.
  module _ (signatures approvals : List (Option Signature))
      (signed : length signatures ≡ length desc.sources)
      (verified : (i : ℕ) (g : Signature)
        → get_elem? signatures i ≡ some (some g)
        → signature_accepted desc i left.block g (get_block_id left) ≡ done true)
      (entries : length approvals ≡ length desc.sources)
      (approved : (i : ℕ) (g : Signature)
        → get_elem? approvals i ≡ some (some g)
        → ApprovedFor desc (get_block_id left) i g) where
    united-IsOldRound : IsOldRound desc n (united left signatures approvals)
    united-IsOldRound =
        let l : length (pick_items left.signatures signatures) ≡ length desc.sources =
          omega (arith, length-pick_items left.signatures signatures, inv.entries) in
        record {
          numbered = inv.numbered;
          entries = l;
          approvals =
              omega (arith, length-pick_items left.approve_signatures approvals, inv.approvals);
          quorum =
              weigh_mono is_some is_some desc left.signatures
                (pick_items left.signatures signatures) weighed (omega (arith, inv.entries))
                (omega arith) (pick_more left.signatures signatures (inv.entries ∙ sym signed)).0
                inv.quorum;
          verified = λ i g e. elim (pick_items-get left.signatures signatures i g e) [
            | inl q ↦ inv.verified i g q
            | inr q ↦ verified i g q
          ];
          approved = λ i g e. elim (pick_items-get left.approve_signatures approvals i g e) [
            | inl q ↦ inv.approved i g q
            | inr q ↦ approved i g q
          ];
        }

  -- In a weighed session two states of one old round, for the same block, merge without a panic to
  -- an old round for that block.
  pub merge-StaysCommitted :
      (right : OldRoundState)
      → IsOldRound desc n right
      → right.block ≡ left.block
      → StaysCommitted desc n left (merge pool left right)
  unfolding merge
  merge-StaysCommitted right other same =
      let t : (left.sequence_number == right.sequence_number) ≡ true =
        ground (arith, inv.numbered, other.numbered) in
      (
        united left right.signatures right.approve_signatures,
        rw
            (
              t,
              merge_signatures-lem pool left.signatures right.signatures,
              merge_signatures-lem pool left.approve_signatures right.approve_signatures,
            )
            refl,
        united-IsOldRound right.signatures right.approve_signatures other.entries
            (λ i g e.
              subst (λ b. signature_accepted desc i b g (SentBlock.get_id b) ≡ done true) same
                (other.verified i g e))
            other.approvals
            (λ i g e.
              subst (λ b. ApprovedFor desc (SentBlock.get_id b) i g) same (other.approved i g e)),
        refl,
      )

  -- In a weighed session an old round merges without a panic with a well-formed state of the same
  -- round that has locked no other block, to an old round for its block.
  pub merge_round-StaysCommitted :
      (right : RoundState)
      → IsRound desc right
      → right.sequence_number ≡ n
      → ((b : SentBlockPtr) → right.precommitted_block ≡ some b → b ≡ left.block)
      → StaysCommitted desc n left (merge_round pool left right)
  unfolding merge_round merge_approvals
  merge_round-StaysCommitted right other number agree =
      let t : (left.sequence_number == right.sequence_number) ≡ true =
        ground (arith, inv.numbered) in
      let verified : (i : ℕ) (g : Signature)
          → get_elem? right.signatures i ≡ some (some g)
          → signature_accepted desc i left.block g (get_block_id left) ≡ done true =
        λ i g e.
          let (b, q, v) = other.verified i g e in
          subst (λ x. signature_accepted desc i x g (SentBlock.get_id x) ≡ done true) (agree b q)
            v in
      let signatures = merge_signatures-lem pool left.signatures right.signatures in
      elim (Option-cases
        (find BlockCandidate.get_id (get_block_id left) (iter right.sent_blocks))) [
          | inl e ↦ (
            record left { signatures = pick_items left.signatures right.signatures },
            rw (t, signatures, candidate_in-find (iter right.sent_blocks) (get_block_id left), e)
                refl,
            subst
                (λ a. IsOldRound desc n (record left {
                  signatures = pick_items left.signatures right.signatures;
                  approve_signatures = a;
                }))
                (pick_items_idem left.approve_signatures)
                (united-IsOldRound right.signatures left.approve_signatures other.signed verified
                  inv.approvals inv.approved),
            refl,
          )
          | inr (c, e) ↦
              let (h, k) =
                find-All BlockCandidate.get_id (IsRoundCandidate desc right.sequence_number)
                  (get_block_id left) (iter right.sent_blocks) c other.blocks e in
              (
                united left right.signatures c.approved_by,
                rw
                    (
                      t,
                      signatures,
                      candidate_in-find (iter right.sent_blocks) (get_block_id left),
                      e,
                      merge_signatures-lem pool left.approve_signatures c.approved_by,
                    )
                    refl,
                united-IsOldRound right.signatures c.approved_by other.signed verified
                    h.entries.entries
                    (λ i g q.
                      subst (λ id. ApprovedFor desc id i g) k
                        (approved_of desc right.sequence_number c h i g q)),
                refl,
              )
        ]
