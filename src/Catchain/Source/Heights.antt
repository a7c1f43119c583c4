-- ===== src/Catchain/Source/Heights.antt =====
-- How far the received and the delivered blocks of a source reach (receiver_source.rs,
-- `block_received` and `block_delivered`).
use ton_labs_node.Base.{
  ℕ, zero, suc, ◌+◌, ◌<◌, ◌≤◌, ◌≡◌, refl, sym, ap, ◌∙◌, Bool, true, false, List, [], ◌∷◌, ltb, ◌==◌,
  if◌then◌else◌, Option, none, some, All, Bool-cases, inl, inr, arith, subst,
}
use ton_labs_node.Session.SortedVector.Order.{find}
use ton_labs_node.Catchain.Block.{ReceivedBlock, is_initialized}
use ton_labs_node.Catchain.Source.{
  ReceiverSource, height_of, get_block, ready, advanced, block_received,
}

-- Every block of the source is below a height.
abbrev pub Below : ℕ → List (ℕ × ℕ) → Type 0
Below n blocks = All (λ entry. height_of entry < n) blocks

nothing_above :
    (n h : ℕ) (blocks : List (ℕ × ℕ)) → Below n blocks → n ≤ h → find height_of h blocks ≡ none
unfolding find
nothing_above n h [] b l = refl
nothing_above n h ((k, p) ∷ blocks) b l =
    let small : k < n = b.0 in
    let t : (k == h) ≡ false = ground arith in rw t (nothing_above n h blocks b.1 l)

abbrev pointer_of : Option (ℕ × ℕ) → Option ℕ
pointer_of none = none
pointer_of (some (h, block)) = some block

module _ (store : ℕ → ReceivedBlock) (test : ReceivedBlock → Bool) (source : ReceiverSource) where
  not_ready : (n h : ℕ) → Below n source.blocks → n ≤ h → ready store test source h ≡ false
  unfolding ready get_block
  not_ready n h b l =
      ap (λ o. elim (pointer_of o) [ none ↦ false | some pointer ↦ test (store pointer) ])
        (nothing_above n h source.blocks b l)

  -- The blocks above `height` up to `reached` pass, and the next one does not.
  abbrev pub Reaches : ℕ → ℕ → Type 0
  Reaches height reached =
      (height ≤ reached)
      × ((h : ℕ) → height < h → h ≤ reached → ready store test source h ≡ true)
      × (ready store test source (reached + 1) ≡ false)

  pub advanced-Reaches :
      (fuel height : ℕ)
      → 0 < fuel
      → Below (height + fuel) source.blocks
      → (reached : ℕ) × (advanced store test source fuel height ≡ some reached)
        × Reaches height reached
  unfolding advanced
  advanced-Reaches zero height p b = absurd (omega arith)
  advanced-Reaches (suc fuel) height p b =
      elim (Bool-cases (ready store test source (height + 1))) [
        | inr t ↦ (height, rw t refl, (omega arith, (λ h l m. absurd (omega arith)), t))
        | inl t ↦ elim (Bool-cases (ltb 0 fuel)) [
          | inr u ↦
              let z = not_ready (height + suc fuel) (height + 1) b (ground arith) in
              absurd (cc (z, t))
          | inl u ↦
              let q : height + suc fuel ≡ height + 1 + fuel = omega arith in
              let (reached, e, (l, passed, stop)) =
                advanced-Reaches fuel (height + 1) (ground arith)
                  (subst (λ n. Below n source.blocks) q b) in
              (
                reached,
                rw t e,
                (
                  omega arith,
                  (λ h a m. elim (Bool-cases (h == height + 1)) [
                    | inl v ↦
                        let w : h ≡ height + 1 = ground arith in
                        subst (λ x. ready store test source x ≡ true) (sym w) t
                    | inr v ↦ passed h (ground arith) m
                  ]),
                  stop,
                ),
              )
        ]
      ]

weaker : (m n : ℕ) (blocks : List (ℕ × ℕ)) → m ≤ n → Below m blocks → Below n blocks
weaker m n [] l b = tt
weaker m n ((h, p) ∷ blocks) l b = (let s : h < m = b.0 in omega arith, weaker m n blocks l b.1)

abbrev reached_source : ReceiverSource → Option ℕ → Option ReceiverSource
reached_source source none = none
reached_source source (some reached) = some (record source { received_height = reached })

-- The notice of a received block at a height, to a source that is not blamed, ends when the fuel
-- is positive and the received height plus the fuel exceeds the heights of the source's blocks.
-- The new received height is the old one, or the height of the block when that is the next one,
-- and from there on goes over all blocks that follow without a gap and are initialised, as far as
-- they go; nothing else changes.
pub block_received-Reaches :
    (store : ℕ → ReceivedBlock) (source : ReceiverSource) (height fuel : ℕ)
    → source.blamed ≡ false
    → 0 < fuel
    → Below (source.received_height + fuel) source.blocks
    → (reached : ℕ) × (block_received store fuel source height
        ≡ some (record source { received_height = reached }))
      × Reaches store is_initialized source
          (if source.received_height + 1 == height then height else source.received_height)
          reached
unfolding block_received
block_received-Reaches store source height fuel open_source positive below =
    let start = if source.received_height + 1 == height then height else source.received_height in
    let later : source.received_height ≤ start = ground arith in
    let (reached, e, r) =
      advanced-Reaches store is_initialized source fuel start positive
        (weaker (source.received_height + fuel) (start + fuel) source.blocks (omega arith) below) in
    (
      reached,
      ap
            (λ b.
              if b
              then some source
              else reached_source source (advanced store is_initialized source fuel start))
            open_source
          ∙ ap (reached_source source) e,
      r,
    )
