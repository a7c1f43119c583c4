-- ===== src/Session/Round/Proposing/Approvable.antt =====
-- The blocks that a validator is to approve (round.rs, `choose_blocks_to_approve`).
use ton_labs_node.Base.{
  Bool, not, true, if◌then◌else◌, ◌↔◌, sym, get_elem?-end, ℕ, zero, suc, ◌+◌, ◌<◌, ◌≡◌, refl, false,
  ◌++◌, List, [], ◌∷◌, length, replicate, length-replicate, get-All, All-get, get_elem?, Option,
  none, some, u32, All, done, Bool-cases, inl, inr, subst,
}
use ton_labs_node.Session.Description.{SessionDescription, get_max_priority}
use ton_labs_node.Session.SortedVector.{iter}
use ton_labs_node.Session.SentBlock.{SentBlock, SentBlockPtr}
use ton_labs_node.Session.BlockCandidate.{BlockCandidate, check_block_is_approved_by}
use ton_labs_node.Session.Round.{RoundState}
use ton_labs_node.Session.Round.Invariant.{IsConfigured, IsRoundCandidate, IsRound}
use ton_labs_node.Session.Round.Proposing.{placed_blocks, choose_blocks_to_approve}
use ton_labs_node.Session.BlockCandidate
use ton_labs_node.Session.SortedVector.Order.{IsSorted}
use ton_labs_node.Session.Round.Proposing.Skipping.{SkipIsOpen, Tells, rank_from-Tells}
use ton_labs_node.Session.Round.Proposing.Ranked.{
  Open, IsOpenBlock, no_places, placed_blocks-All, placed_blocks-named, append_skip, rank_from-lem,
}

-- The skip candidate is in the list.
abbrev pub HasSkip : List SentBlockPtr → Type 0
HasSkip bs = (i : ℕ) × (get_elem? bs i ≡ some none)

module _ (places : List (Option BlockCandidate)) (src : ℕ) (P : BlockCandidate → Type 0)
    (open_places : All (Open P src) places) (cs : List BlockCandidate) where
  -- The list with the skip candidate at its end, or without it, as the flag tells.
  skip-IsOpen :
      (flag : Bool)
      → Tells src cs flag
      → HasSkip (if not flag then placed_blocks places ++ none ∷ [] else placed_blocks places)
        ↔ SkipIsOpen src cs
  skip-IsOpen false tells =
      let bs = placed_blocks places in (λ s. tells, λ h. (length bs, get_elem?-end bs none))
  skip-IsOpen true tells = (
    λ s. absurd (placed_blocks-named P src places s.0 open_places s.1),
    λ h. let (c, (j, f), e, a) = tells in let q = h j c f e in absurd (cc (q, a)),
  )

-- In a configured session and a round with the invariant, the choice of blocks to approve does not
-- panic for a known validator. Each block that it returns, the skip entry aside, is that of a
-- candidate of the round which the validator has not approved; and the skip entry is among the
-- results exactly when the round has no skip candidate that the validator has approved.
pub choose_blocks_to_approve-open :
    (desc : SessionDescription)
    → IsConfigured desc
    → (state : RoundState) → IsRound desc state
    → (src : ℕ) → src < length desc.sources
    → (bs : List SentBlockPtr) × (choose_blocks_to_approve desc state src ≡ done bs)
      × ((i : ℕ) (b : SentBlock)
          → get_elem? bs i ≡ some (some b)
          → (c : BlockCandidate) × (c.block ≡ some b)
            × ((j : ℕ) × (get_elem? (iter state.sent_blocks) j ≡ some c))
            × (check_block_is_approved_by c src ≡ done false))
      × (HasSkip bs ↔ SkipIsOpen src (iter state.sent_blocks))
unfolding choose_blocks_to_approve
choose_blocks_to_approve-open desc configured state inv src known = go state.sent_blocks refl
  where
    go :
        (o : Option (List BlockCandidate))
        → state.sent_blocks ≡ o
        → (bs : List SentBlockPtr) × (choose_blocks_to_approve desc state src ≡ done bs)
          × ((i : ℕ) (b : SentBlock)
              → get_elem? bs i ≡ some (some b)
              → (c : BlockCandidate) × (c.block ≡ some b)
                × ((j : ℕ) × (get_elem? (iter state.sent_blocks) j ≡ some c))
                × (check_block_is_approved_by c src ≡ done false))
          × (HasSkip bs ↔ SkipIsOpen src (iter state.sent_blocks))
    go none e = (
      none ∷ [],
      rw e refl,
      (λ i b f. absurd (only_skip i b f)),
      (λ s. rw e (λ j c f q. absurd (cc f)), λ h. (0, refl)),
    )
      where
        only_skip : (i : ℕ) (b : SentBlock) → get_elem? (none ∷ []) i ≡ some (some b) → ⊥
        only_skip zero b f = cc
        only_skip (suc i) b f = cc
    go (some cs) e =
        let P : BlockCandidate → Type 0 =
          λ c. (j : ℕ) × (get_elem? (iter state.sent_blocks) j ≡ some c) in
        let all : All P cs =
          subst (λ o. All P (iter o)) e (get-All P (iter state.sent_blocks) (λ j c f. (j, f))) in
        let blocks =
          subst (λ o. All (IsRoundCandidate desc state.sequence_number) (iter o)) e inv.blocks in
        let m = u32 (get_max_priority desc + 2) in
        let (last, q, r) =
          rank_from-lem desc configured state.sequence_number src known P
            (record {
              block_candidates = replicate m none;
              sources_proposal_set = [];
              was_empty = false;
            })
            cs (length-replicate m none, no_places P src m) blocks all in
        let tells =
          rank_from-Tells src desc state.sequence_number
            (record {
              block_candidates = replicate m none;
              sources_proposal_set = [];
              was_empty = false;
            })
            cs refl (subst (λ o. IsSorted BlockCandidate.get_id (iter o)) e inv.blocks_sorted) last
            q in
        let skip =
          subst
            (λ o.
              HasSkip (
                if not last.was_empty
                then placed_blocks last.block_candidates ++ none ∷ []
                else placed_blocks last.block_candidates)
              ↔ SkipIsOpen src (iter o))
            (sym e) (skip-IsOpen last.block_candidates src P r.1 cs last.was_empty tells) in
        let bs = placed_blocks last.block_candidates in
        let good = placed_blocks-All P src last.block_candidates r.1 in
        elim (Bool-cases last.was_empty) [
          | inl t ↦ (
            bs,
            rw e (rw (q, t) refl),
            (λ i b f. All-get (IsOpenBlock P src) bs i (some b) good f),
            subst
                (λ w.
                  HasSkip (if not w then bs ++ none ∷ [] else bs)
                  ↔ SkipIsOpen src (iter state.sent_blocks))
                t skip,
          )
          | inr t ↦ (
            bs ++ none ∷ [],
            rw e (rw (q, t) refl),
            (λ i b f.
                All-get (IsOpenBlock P src) (bs ++ none ∷ []) i (some b)
                  (append_skip (IsOpenBlock P src) bs tt good) f),
            subst
                (λ w.
                  HasSkip (if not w then bs ++ none ∷ [] else bs)
                  ↔ SkipIsOpen src (iter state.sent_blocks))
                t skip,
          )
        ]
