-- ===== src/Session/Round/Proposing/Ranked.antt =====
-- The ranking of the blocks that a validator is to approve (round.rs, `choose_blocks_to_approve`).
use ton_labs_node.Base.{
  ℕ, zero, suc, ◌+◌, ◌<◌, ◌≡◌, refl, ◌∙◌, false, ◌++◌, List, [], ◌∷◌, length, replicate, set,
  length-set, set-All, get_elem?, get_elem?-some, Option, none, some, is_some, u32, All, done,
  arith, Bool-cases, inl, inr,
}
use ton_labs_node.Session.Description.{SessionDescription, get_max_priority}
use ton_labs_node.Session.SentBlock.{SentBlock, SentBlockPtr}
use ton_labs_node.Session.BlockCandidate.{BlockCandidate, check_block_is_approved_by}
use ton_labs_node.Session.Round.{candidate_priority}
use ton_labs_node.Session.Round.Invariant.{IsConfigured, IsRoundCandidate}
use ton_labs_node.Session.Round.Choosing.{rank_small}
use ton_labs_node.Session.Round.Proposing.{
  Ranking, contains, non_negative, put, rank_block, rank_by_block, rank_from, placed_blocks,
}

module _ (P : BlockCandidate → Type 0) (src : ℕ) where
  -- A place is empty, or has a candidate that the validator has not approved.
  abbrev pub Open : Option BlockCandidate → Type 0
  Open none = Unit
  Open (some c) =
      P c × (check_block_is_approved_by c src ≡ done false) × ((b : SentBlock) × (c.block ≡ some b))

  pub no_places : (m : ℕ) → All Open (replicate m none)
  no_places zero = tt
  no_places (suc m) = (tt, no_places m)

  -- A block that is to be approved.
  abbrev pub IsOpenBlock : SentBlockPtr → Type 0
  IsOpenBlock none = Unit
  IsOpenBlock (some b) =
      (c : BlockCandidate) × (c.block ≡ some b)
      × P c
      × (check_block_is_approved_by c src ≡ done false)

  open_block : (c : BlockCandidate) (o : SentBlockPtr) → c.block ≡ o → Open (some c) → IsOpenBlock o
  open_block c none e h = tt
  open_block c (some b) e h = (let (p, a, q) = h in (c, e, p, a))

  pub placed_blocks-All :
      (places : List (Option BlockCandidate))
      → All Open places
      → All IsOpenBlock (placed_blocks places)
  unfolding placed_blocks
  placed_blocks-All [] h = tt
  placed_blocks-All (none ∷ places) h = placed_blocks-All places h.1
  placed_blocks-All (some c ∷ places) h =
      (open_block c c.block refl h.0, placed_blocks-All places h.1)

  -- The places name no skip candidate.
  pub placed_blocks-named :
      (places : List (Option BlockCandidate)) (i : ℕ)
      → All Open places
      → get_elem? (placed_blocks places) i ≡ some none
      → ⊥
  unfolding placed_blocks
  placed_blocks-named [] i h e = cc
  placed_blocks-named (none ∷ places) i h e = placed_blocks-named places i h.1 e
  placed_blocks-named (some c ∷ places) zero h e =
      let (p, a, (b, q)) = h.0 in let r : c.block ≡ none = cc in cc
  placed_blocks-named (some c ∷ places) (suc i) h e = placed_blocks-named places i h.1 e

pub append_skip :
    (P : SentBlockPtr → Type 0) (bs : List SentBlockPtr)
    → P none
    → All P bs
    → All P (bs ++ none ∷ [])
append_skip P [] p h = (p, tt)
append_skip P (b ∷ bs) p h = (h.0, append_skip P bs p h.1)

module _ (desc : SessionDescription) (configured : IsConfigured desc) (n src : ℕ)
    (known : src < length desc.sources) (P : BlockCandidate → Type 0) where
  -- A place for each priority, and no approved candidate in any.
  abbrev pub IsRanking : Ranking → Type 0
  IsRanking r =
      (length r.block_candidates ≡ u32 (get_max_priority desc + 2))
      × All (Open P src) r.block_candidates

  put-lem :
      (places : List (Option BlockCandidate)) (p : ℕ) (o : Option BlockCandidate)
      → p < length places
      → put places p o ≡ done (set places p o)
  unfolding put
  put-lem places p o h = let (x, e) = get_elem?-some places p h in rw e refl

  rank_block-lem :
      (r : Ranking) (c : BlockCandidate) (b : SentBlock)
      → IsRanking r
      → IsRoundCandidate desc n c
      → P c
      → c.block ≡ some b
      → (next : Ranking) × (rank_block desc n src r c b.source_id ≡ done next) × IsRanking next
  unfolding rank_block non_negative
  rank_block-lem r c b ranking h pc e =
      let (p, q) = (h.proposed b e).1 in
      let small = rank_small desc n configured c p (unfold candidate_priority in rw e q) in
      let inside : p < length r.block_candidates = omega (arith, ranking.0) in
      let (o, f) = get_elem?-some c.approved_by src (omega (arith, h.entries.entries)) in
      elim (Bool-cases (contains r.sources_proposal_set b.source_id)) [
        | inl t ↦ (
          record r { block_candidates = set r.block_candidates p none },
          rw (q, t, put-lem r.block_candidates p none inside) refl,
          (
            length-set r.block_candidates p none ∙ ranking.0,
            set-All (Open P src) r.block_candidates p none tt ranking.1,
          ),
        )
        | inr t ↦ elim (Bool-cases (is_some o)) [
          | inl u ↦ (
            record r { sources_proposal_set = b.source_id ∷ r.sources_proposal_set },
            rw (q, t, f, u) refl,
            ranking,
          )
          | inr u ↦ (
            record r {
              block_candidates = set r.block_candidates p (some c);
              sources_proposal_set = b.source_id ∷ r.sources_proposal_set;
            },
            rw (q, t, f, u, put-lem r.block_candidates p (some c) inside) refl,
            (
              length-set r.block_candidates p (some c) ∙ ranking.0,
              set-All (Open P src) r.block_candidates p (some c) (pc, rw (f, u) refl, (b, e))
                  ranking.1,
            ),
          )
        ]
      ]

  rank_by_block-lem :
      (r : Ranking) (c : BlockCandidate) (o : SentBlockPtr)
      → c.block ≡ o
      → IsRanking r
      → IsRoundCandidate desc n c
      → P c
      → (next : Ranking) × (rank_by_block desc n src r c o ≡ done next) × IsRanking next
  unfolding rank_by_block
  rank_by_block-lem r c none e ranking h pc =
      let (o, f) = get_elem?-some c.approved_by src (omega (arith, h.entries.entries)) in
      (record r { was_empty = is_some o }, rw f refl, ranking)
  rank_by_block-lem r c (some b) e ranking h pc = rank_block-lem r c b ranking h pc e

  pub rank_from-lem :
      (r : Ranking) (cs : List BlockCandidate)
      → IsRanking r
      → All (IsRoundCandidate desc n) cs
      → All P cs
      → (last : Ranking) × (rank_from desc n src r cs ≡ done last) × IsRanking last
  unfolding rank_from
  rank_from-lem r [] ranking h p = (r, refl, ranking)
  rank_from-lem r (c ∷ cs) ranking h p =
      let (next, e, k) = rank_by_block-lem r c c.block refl ranking h.0 p.0 in
      let (last, q, l) = rank_from-lem next cs k h.1 p.1 in (last, rw e q, l)
