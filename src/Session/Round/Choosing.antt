-- ===== src/Session/Round/Choosing.antt =====
-- The search for an approved block with the least priority (round.rs, `choose_block_to_vote`).
use ton_labs_node.Base.{
  ℕ, zero, suc, ◌+◌, ◌≤◌, ◌<◌, ◌≡◌, refl, sym, ap, ◌∙◌, true, false, List, [], ◌∷◌, get_elem?,
  Option, none, some, u32, ltb, All, done, arith, Bool-cases, Option-cases, ◌⊎◌, inl, inr, subst,
}
use ton_labs_node.Session.Description.{SessionDescription, pos, get_max_priority, get_node_priority}
use ton_labs_node.Session.Description.Weights.{IsWeighed}
use ton_labs_node.Session.SentBlock.{SentBlockPtr}
use ton_labs_node.Session.BlockCandidate.{BlockCandidate, check_block_is_approved}
use ton_labs_node.Session.BlockCandidate.Approvals.{approved_total}
use ton_labs_node.Session.Round.{candidate_priority, better, best_from, best_block, lt_int}
use ton_labs_node.Session.Round.Invariant.{IsConfigured, IsRoundCandidate}
use ton_labs_node.Session.Round.Voting.{rank_total, i32_small}

module _ (desc : SessionDescription) (n : ℕ) where
  -- The candidate is approved and has the rank `p`.
  abbrev pub Eligible : BlockCandidate → ℕ → Type 0
  Eligible c p =
      (check_block_is_approved desc c ≡ done true) × (candidate_priority desc n c ≡ done (pos p))

  -- No eligible candidate comes before the rank `p`.
  abbrev pub NoneBefore : ℕ → List BlockCandidate → Type 0
  NoneBefore p cs =
      (i : ℕ) (c : BlockCandidate) (q : ℕ) → get_elem? cs i ≡ some c → Eligible c q → p ≤ q

  -- Some eligible candidate has the rank `p` and the block.
  abbrev pub Chosen : List BlockCandidate → ℕ → Option SentBlockPtr → Type 0
  Chosen cs p o =
      (i : ℕ) × (c : BlockCandidate) × (get_elem? cs i ≡ some c) × Eligible c p × (o ≡ some c.block)

  pub rank_small :
      IsConfigured desc
      → (c : BlockCandidate) (p : ℕ) → candidate_priority desc n c ≡ done (pos p)
      → p < u32 (get_max_priority desc + 2)
  unfolding candidate_priority get_node_priority
  rank_small configured c p h = elim (Option-cases c.block) [
    | inl e ↦
        let g : u32 (get_max_priority desc + 1) < 2147483648 =
          omega (arith, configured.candidates) in
        let k : done (pos (u32 (get_max_priority desc + 1))) ≡ done (pos p) =
          (ap done (sym (i32_small (u32 (get_max_priority desc + 1)) g)) ∙ (rw e at h)) in
        let z : u32 (get_max_priority desc + 1) ≡ p = cc in omega (arith, configured.candidates)
    | inr (b, e) ↦ ground (arith, configured.candidates)
  ]

  skip_head :
      (p : ℕ) (c : BlockCandidate) (cs : List BlockCandidate)
      → ((q : ℕ) → Eligible c q → p ≤ q)
      → NoneBefore p cs
      → NoneBefore p (c ∷ cs)
  skip_head p c cs head tail zero d q e h =
      let z : c ≡ d = cc in head q (subst (λ x. Eligible x q) (sym z) h)
  skip_head p c cs head tail (suc i) d q e h = tail i d q e h

  later :
      (c : BlockCandidate) (cs : List BlockCandidate) (p : ℕ) (o : Option SentBlockPtr)
      → Chosen cs p o
      → Chosen (c ∷ cs) p o
  later c cs p o (i, d, e, h, k) = (suc i, d, e, h, k)

  module _ (weighed : IsWeighed desc) (configured : IsConfigured desc) where
    -- What the loop makes of the best block so far.
    best_from-lem :
        (cs : List BlockCandidate)
        → All (IsRoundCandidate desc n) cs
        → (m : ℕ) (b : Option SentBlockPtr)
        → (p : ℕ) × (o : Option SentBlockPtr) × (best_from desc n (pos m, b) cs ≡ done (pos p, o))
          × (p ≤ m)
          × NoneBefore p cs
          × (((p ≡ m) × (o ≡ b)) ⊎ ((p < m) × Chosen cs p o))
    unfolding best_from better lt_int
    best_from-lem [] h m b = (m, b, refl, omega arith, (λ i c q e. absurd (cc e)), inl (refl, refl))
    best_from-lem (c ∷ cs) h m b =
        let (approved, e) = approved_total desc c weighed h.0.entries in
        let (r, q) = rank_total desc weighed configured n c h.0 in
        elim (Bool-cases approved) [
          | inr t ↦
              let (p, o, f, l, k, w) = best_from-lem cs h.1 m b in
              (
                p,
                o,
                rw (e, t) f,
                l,
                skip_head p c cs
                    (λ s g.
                      let z : done false ≡ done true = (sym (e ∙ ap done t) ∙ g.0) in absurd (cc z))
                    k,
                elim w [ inl v ↦ inl v | inr (v, x) ↦ inr (v, later c cs p o x) ],
              )
          | inl t ↦ elim (Bool-cases (ltb r m)) [
            | inr u ↦
                let (p, o, f, l, k, w) = best_from-lem cs h.1 m b in
                (
                  p,
                  o,
                  rw (e, t, q) (rw u (ground arith)),
                  l,
                  skip_head p c cs
                      (λ s g.
                        let z : r ≡ s = (let y : done (pos r) ≡ done (pos s) = sym q ∙ g.1 in cc) in
                        ground arith)
                      k,
                  elim w [ inl v ↦ inl v | inr (v, x) ↦ inr (v, later c cs p o x) ],
                )
            | inl u ↦
                let (p, o, f, l, k, w) = best_from-lem cs h.1 r (some c.block) in
                (
                  p,
                  o,
                  rw (e, t, q) (rw u (ground arith)),
                  ground arith,
                  skip_head p c cs
                      (λ s g.
                        let z : r ≡ s = (let y : done (pos r) ≡ done (pos s) = sym q ∙ g.1 in cc) in
                        omega arith)
                      k,
                  elim w [
                    | inl (v, x) ↦ inr (
                      ground arith,
                      (0, c, refl, (e ∙ ap done t, q ∙ ap (λ x. done (pos x)) (sym v)), x),
                    )
                    | inr (v, x) ↦ inr (ground arith, later c cs p o x)
                  ],
                )
          ]
        ]

    -- In a weighed and configured session and over candidates of the round, the search returns the
    -- block of an approved candidate before which no approved candidate comes, or nothing when no
    -- candidate is approved. It does not panic.
    pub best_block-least :
        (cs : List BlockCandidate)
        → All (IsRoundCandidate desc n) cs
        → (o : Option SentBlockPtr) × (best_block desc n cs ≡ done o)
          × (((o ≡ none)
                × ((i : ℕ) (c : BlockCandidate) (q : ℕ)
                    → get_elem? cs i ≡ some c
                    → Eligible c q
                    → ⊥))
              ⊎ ((p : ℕ) × Chosen cs p o × NoneBefore p cs))
    unfolding best_block lt_int
    best_block-least cs h =
        let m = u32 (get_max_priority desc + 2) in
        let start = i32_small m (omega (arith, configured.candidates)) in
        let (p, o, f, l, k, w) = best_from-lem cs h m none in
        elim w [
          | inl (v, x) ↦
              let u : ltb p m ≡ false = ground arith in
              (
                none,
                rw start (rw f (rw u refl)),
                inl (
                  refl,
                  λ i c q e g.
                      let y = k i c q e g in
                      let z = rank_small configured c q g.1 in omega (arith, y, z, v),
                ),
              )
          | inr (v, x) ↦
              let u : ltb p m ≡ true = ground arith in
              (o, rw start (rw f (rw u refl)), inr (p, x, k))
        ]
