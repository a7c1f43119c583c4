-- ===== src/Session/Round/Proposing/Skipping.antt =====
-- What the choice of blocks to approve finds out of the skip candidate (round.rs,
-- `choose_blocks_to_approve`).
use ton_labs_node.Base.{
  ℕ, zero, suc, ◌<◌, ◌≡◌, refl, sym, ◌∙◌, Bool, true, false, List, [], ◌∷◌, get_elem?, none, some,
  done, Always, done-Always, bind-Always, if-Always, arith, subst, if◌then◌else◌,
}
use ton_labs_node.Session.Description.{SessionDescription, get_node_priority}
use ton_labs_node.Session.SortedVector.Order.{IsSorted, Above}
use ton_labs_node.Session.SentBlock
use ton_labs_node.Session.SentBlock.{SentBlock, SentBlockPtr}
use ton_labs_node.Session.BlockCandidate.{BlockCandidate, get_id, check_block_is_approved_by}
use ton_labs_node.Session.Round.Proposing.{
  Ranking, contains, non_negative, put, rank_block, rank_by_block, rank_from,
}

module _ (src : ℕ) where
  -- No skip candidate of the list has been approved by the validator.
  abbrev pub SkipIsOpen : List BlockCandidate → Type 0
  SkipIsOpen cs =
      (j : ℕ) (c : BlockCandidate)
      → get_elem? cs j ≡ some c
      → c.block ≡ none
      → check_block_is_approved_by c src ≡ done false

  -- The validator has approved a skip candidate of the list.
  abbrev pub SkipIsApproved : List BlockCandidate → Type 0
  SkipIsApproved cs =
      (c : BlockCandidate) × ((j : ℕ) × (get_elem? cs j ≡ some c))
      × (c.block ≡ none)
      × (check_block_is_approved_by c src ≡ done true)

  -- The flag tells whether the validator has approved the skip candidate.
  abbrev pub Tells : List BlockCandidate → Bool → Type 0
  Tells cs false = SkipIsOpen cs
  Tells cs true = SkipIsApproved cs

  module _ (desc : SessionDescription) (n : ℕ) where
    -- A block says nothing of the skip candidate.
    rank_block-Always :
        (r : Ranking) (c : BlockCandidate) (source : ℕ)
        → Always (λ next. next.was_empty ≡ r.was_empty) (rank_block desc n src r c source)
    unfolding rank_block
    rank_block-Always r c source =
        let P : Ranking → Type 0 = λ next. next.was_empty ≡ r.was_empty in
        bind-Always P (get_node_priority desc source n) (λ signed _.
          bind-Always P (non_negative signed) (λ priority _.
            if-Always P (contains r.sources_proposal_set source)
              (λ t.
                bind-Always P (put r.block_candidates priority none)
                  (λ cleared _. done-Always P (record r { block_candidates = cleared }) refl))
              (λ t. bind-Always P (check_block_is_approved_by c src) (λ approved _.
                bind-Always P
                  (if approved
                    then done r.block_candidates
                    else put r.block_candidates priority (some c))
                  (λ placed _.
                    done-Always P
                      (record r {
                        block_candidates = placed;
                        sources_proposal_set = source ∷ r.sources_proposal_set;
                      })
                      refl)))))

    -- Of a candidate: the skip candidate sets the flag, and no other.
    abbrev Flagged : BlockCandidate → SentBlockPtr → Ranking → Ranking → Type 0
    Flagged c none r next = check_block_is_approved_by c src ≡ done next.was_empty
    Flagged c (some b) r next = next.was_empty ≡ r.was_empty

    rank_by_block-Always :
        (r : Ranking) (c : BlockCandidate) (o : SentBlockPtr)
        → Always (Flagged c o r) (rank_by_block desc n src r c o)
    unfolding rank_by_block
    rank_by_block-Always r c none =
        let P : Ranking → Type 0 = λ next. check_block_is_approved_by c src ≡ done next.was_empty in
        bind-Always P (check_block_is_approved_by c src)
          (λ approved e. done-Always P (record r { was_empty = approved }) e)
    rank_by_block-Always r c (some b) = rank_block-Always r c b.source_id

    -- The skip candidate has the least identifier: a candidate that stands above another is of a block.
    named :
        (k : ℕ) (c : BlockCandidate) (o : SentBlockPtr)
        → c.block ≡ o
        → k < get_id c
        → (b : SentBlock) × (c.block ≡ some b)
    named k c (some b) e h = (b, e)
    named k c none e h =
        let m : k < 0 = subst (λ x. k < SentBlock.get_id x) e h in absurd (omega arith)

    blocks_only :
        (k j : ℕ) (c : BlockCandidate) (cs : List BlockCandidate)
        → Above get_id k cs
        → get_elem? cs j ≡ some c
        → (b : SentBlock) × (c.block ≡ some b)
    blocks_only k j c [] a e = absurd (cc e)
    blocks_only k zero c (x ∷ cs) a e =
        let q : x ≡ c = cc in
        subst (λ y. (b : SentBlock) × (y.block ≡ some b)) q (named k x x.block refl a.0)
    blocks_only k (suc j) c (x ∷ cs) a e = blocks_only k j c cs a.1 e

    rank_from-Above :
        (k : ℕ) (r : Ranking) (cs : List BlockCandidate)
        → Above get_id k cs
        → Always (λ last. last.was_empty ≡ r.was_empty) (rank_from desc n src r cs)
    unfolding rank_from
    rank_from-Above k r [] a = done-Always (λ last. last.was_empty ≡ r.was_empty) r refl
    rank_from-Above k r (c ∷ cs) a =
        let P : Ranking → Type 0 = λ last. last.was_empty ≡ r.was_empty in
        bind-Always P (rank_by_block desc n src r c c.block) (λ next e last f.
          let (b, q) = named k c c.block refl a.0 in
          let g = subst (λ o. Flagged c o r next) q (rank_by_block-Always r c c.block next e) in
          rank_from-Above k next cs a.1 last f ∙ g)

    head_open :
        (c : BlockCandidate) (cs : List BlockCandidate)
        → IsSorted get_id (c ∷ cs)
        → check_block_is_approved_by c src ≡ done false
        → SkipIsOpen (c ∷ cs)
    head_open c cs s h zero d f q =
        let same : c ≡ d = cc in subst (λ x. check_block_is_approved_by x src ≡ done false) same h
    head_open c cs s h (suc j) d f q =
        let (b, g) = blocks_only (get_id c) j d cs s.0 f in absurd (cc (g, q))

    head-Tells :
        (c : BlockCandidate) (cs : List BlockCandidate) (flag : Bool)
        → IsSorted get_id (c ∷ cs)
        → c.block ≡ none
        → check_block_is_approved_by c src ≡ done flag
        → Tells (c ∷ cs) flag
    head-Tells c cs true s e h = (c, (0, refl), e, h)
    head-Tells c cs false s e h = head_open c cs s h

    tail-Tells :
        (c : BlockCandidate) (b : SentBlock) (cs : List BlockCandidate)
        → c.block ≡ some b
        → Above get_id (get_id c) cs
        → Tells (c ∷ cs) false
    tail-Tells c b cs e a zero d f q =
        let same : c ≡ d = cc in let g = subst (λ x. x.block ≡ some b) same e in absurd (cc (g, q))
    tail-Tells c b cs e a (suc j) d f q =
        let (y, g) = blocks_only (get_id c) j d cs a f in absurd (cc (g, q))

    first-Tells :
        (r next last : Ranking) (c : BlockCandidate) (cs : List BlockCandidate) (o : SentBlockPtr)
        → r.was_empty ≡ false
        → IsSorted get_id (c ∷ cs)
        → c.block ≡ o
        → Flagged c o r next
        → last.was_empty ≡ next.was_empty
        → Tells (c ∷ cs) last.was_empty
    first-Tells r next last c cs none w s e g l =
        subst (Tells (c ∷ cs)) (sym l) (head-Tells c cs next.was_empty s e g)
    first-Tells r next last c cs (some b) w s e g l =
        subst (Tells (c ∷ cs)) (sym (l ∙ g ∙ w)) (tail-Tells c b cs e s.0)

    pub rank_from-Tells :
        (r : Ranking) (cs : List BlockCandidate)
        → r.was_empty ≡ false
        → IsSorted get_id cs
        → Always (λ last. Tells cs last.was_empty) (rank_from desc n src r cs)
    unfolding rank_from
    rank_from-Tells r [] w s =
        done-Always (λ last. Tells [] last.was_empty) r
          (subst (Tells []) (sym w) (λ j c f q. absurd (cc f)))
    rank_from-Tells r (c ∷ cs) w s =
        let P : Ranking → Type 0 = λ last. Tells (c ∷ cs) last.was_empty in
        bind-Always P (rank_by_block desc n src r c c.block) (λ next e last f.
          first-Tells r next last c cs c.block w s refl (rank_by_block-Always r c c.block next e)
            (rank_from-Above (get_id c) next cs s.0 last f))
