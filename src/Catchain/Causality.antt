-- ===== src/Catchain/Causality.antt =====
-- The order in which a receiver tells its listener of blocks (received_block.rs).
pub mod Examples
use ton_labs_node.Base.{
  ℕ, zero, suc, ◌+◌, ◌<◌, ◌≤◌, ◌≡◌, refl, sym, ap, ◌∙◌, subst, Bool, true, false, List, [], ◌∷◌,
  ◌++◌, ◌==◌, Option, none, some, Outcome, done, Bool-cases, inl, inr, arith,
}
use ton_labs_node.Catchain.Times.{times}
use ton_labs_node.Catchain.Block.{
  ReceivedBlock, ReceivedBlockState, null, delivered, is_delivered, BlockDep,
}
use ton_labs_node.Catchain.Delivery.{
  ReceiverState, NewBlock, put_block, is_null, initialize, written,
}
use ton_labs_node.Catchain.Process.{BlockContent, process}
use ton_labs_node.Catchain.Graph.{
  View, view, arrived, delivered_state, null_state, ready_state, waiting, IsGraph, Causal,
  told_blocks,
}
use ton_labs_node.Catchain.Graph.Linking.{views, views-put_same, is_delivered_lem}
use ton_labs_node.Catchain.Graph.Illness.{Good, IsSame, same-Good}
use ton_labs_node.Catchain.Graph.Initializing.{initialize-Good, written-Good}
use ton_labs_node.Catchain.Graph.Processing.{process-Kept}

module _ (root : ℕ) where
  -- Only the root has been delivered, and nothing else is known.
  pub record IsFresh (s : ReceiverState) : Type 0 where
    pub root_delivered : (s.blocks root).state ≡ delivered
    pub root_prev : (s.blocks root).prev ≡ none
    pub root_deps : (s.blocks root).block_deps ≡ []
    pub others_null : (k : ℕ) → (k == root) ≡ false → (s.blocks k).state ≡ null
    pub others_prev : (k : ℕ) → (k == root) ≡ false → (s.blocks k).prev ≡ none
    pub others_deps : (k : ℕ) → (k == root) ≡ false → (s.blocks k).block_deps ≡ []
    pub others_rev : (k : ℕ) → (k == root) ≡ false → (s.blocks k).rev_deps ≡ []
    pub untold : s.notices ≡ []

  module _ (fuel : ℕ) (parse : List ℕ → BlockContent)
      (valid : ReceiverState → BlockDep → Bool) where
    -- The states that a receiver brings its blocks to.
    pub data ReceiverReached (start : ReceiverState) : ReceiverState → Type 0 where
      begins : ReceiverReached start start
      -- A block of which nothing but its place is known gets its data.
      creates :
          {s : ReceiverState}
          → ReceiverReached start s
          → (p : ℕ) (block : ReceivedBlock) → view block ≡ view (s.blocks p)
          → ReceiverReached start (put_block s p block)
      initializes :
          {s : ReceiverState} {r : ReceiverState × Bool}
          → ReceiverReached start s
          → (p prev : ℕ) (deps signature payload : List ℕ)
          → initialize fuel s p prev deps signature payload ≡ done r
          → ReceiverReached start r.0
      writes :
          {s : ReceiverState}
          → ReceiverReached start s
          → (p : ℕ) → ReceiverReached start (written s p)
      runs :
          {s t : ReceiverState}
          → ReceiverReached start s
          → (p : ℕ) → process fuel parse valid s p ≡ done t
          → ReceiverReached start t
      -- The sources and the queue change, and no block.
      others :
          {s t : ReceiverState}
          → ReceiverReached start s
          → IsSame root s t
          → ReceiverReached start t

    links_by : (b : ReceivedBlock) → b.prev ≡ none → b.block_deps ≡ [] → (view b).links ≡ []
    unfolding view
    links_by b e f = rw (e, f) refl

    module _ (start : ReceiverState) (fresh : IsFresh start) where
      fresh_links : (k : ℕ) → (views start.blocks k).links ≡ []
      fresh_links k = elim (Bool-cases (k == root)) [
        | inl t ↦
            let e : root ≡ k = ground arith in
            subst (λ x. (views start.blocks x).links ≡ []) e
              (links_by (start.blocks root) fresh.root_prev fresh.root_deps)
        | inr t ↦ links_by (start.blocks k) (fresh.others_prev k t) (fresh.others_deps k t)
      ]

      fresh_arrived : (k : ℕ) → (k == root) ≡ false → (views start.blocks k).state ≡ null
      unfolding view
      fresh_arrived k t = fresh.others_null k t

      root_arrived : (views start.blocks root).state ≡ delivered
      unfolding view
      root_arrived = fresh.root_delivered

      fresh_rev : (k : ℕ) → (k == root) ≡ false → (views start.blocks k).rev_deps ≡ []
      unfolding view
      fresh_rev k t = fresh.others_rev k t

      -- At first the root is the one block that has arrived.
      only_root : (k : ℕ) → arrived (views start.blocks k) ≡ true → (k == root) ≡ true
      only_root k a = elim (Bool-cases (k == root)) [
        | inl t ↦ t
        | inr t ↦ (let e = ap delivered_state (fresh_arrived k t) in absurd (cc (a, e)))
      ]

      not_root : (k : ℕ) → arrived (views start.blocks k) ≡ false → (k == root) ≡ false
      not_root k a = elim (Bool-cases (k == root)) [
        | inr t ↦ t
        | inl t ↦
            let e : root ≡ k = ground arith in
            let r =
              subst (λ x. arrived (views start.blocks x) ≡ true) e
                (ap delivered_state root_arrived) in
            absurd (cc (a, r))
      ]

      not_ready : (k : ℕ) → ready_state (views start.blocks k).state ≡ false
      not_ready k = elim (Bool-cases (k == root)) [
        | inr t ↦ ap ready_state (fresh_arrived k t)
        | inl t ↦
            let e : root ≡ k = ground arith in
            subst (λ x. ready_state (views start.blocks x).state ≡ false) e
              (ap ready_state root_arrived)
      ]

      start-Good : Good root [] [] start
      start-Good = record {
        counted = λ p r e. absurd (let n = not_ready p in cc (n, r));
        linked = λ p d a.
            subst (λ rs. times p rs ≤ times d (views start.blocks p).links)
              (sym (fresh_rev d (not_root d a))) (omega arith);
        closed = λ p d a t.
            (let l = subst (λ ls. 0 < times d ls) (fresh_links p) t in absurd (omega arith));
        blank = λ p e. fresh_links p;
        told = λ p a.
            subst (λ ns. 0 < times p (told_blocks ns ++ root ∷ [])) (sym fresh.untold)
              (let t : (root == p) ≡ true = ground (arith, only_root p a) in rw t (omega arith));
        known = λ p l.
            let m = subst (λ ns. 0 < times p (told_blocks ns ++ root ∷ [])) fresh.untold l in
            let e : root ≡ p = ground arith in
            subst (λ x. arrived (views start.blocks x) ≡ true) e (ap delivered_state root_arrived);
        causal = subst (Causal root) (sym fresh.untold) tt;
      }

      ReceiverReached-Good : (s : ReceiverState) → ReceiverReached start s → Good root [] [] s
      ReceiverReached-Good _ begins = start-Good
      ReceiverReached-Good _ (creates {s} reached p block e) =
          subst (λ g. IsGraph root [] [] g s.notices) (sym (views-put_same s.blocks p block e))
            (ReceiverReached-Good s reached)
      ReceiverReached-Good _ (initializes {s} {r} reached p prev deps signature payload e) =
          initialize-Good root fuel s p prev deps signature payload (ReceiverReached-Good s reached)
            r e
      ReceiverReached-Good _ (writes {s} reached p) =
          written-Good root s p (ReceiverReached-Good s reached)
      ReceiverReached-Good _ (runs {s} {t} reached p e) =
          process-Kept root fuel parse valid s p (ReceiverReached-Good s reached) t e
      ReceiverReached-Good _ (others {s} {t} reached same) =
          same-Good root [] [] s t same (ReceiverReached-Good s reached)

      -- In every state that a receiver brings its blocks to, from one in which only the root is
      -- delivered and nothing else is known, by creating, initialising, writing and processing
      -- blocks in any order: the listener has been told of each block only after it was told of
      -- the block before it and of all its dependencies, the root aside, and never twice; and it
      -- has been told of every block that is delivered.
      pub delivery_order-Causal :
          (s : ReceiverState)
          → ReceiverReached start s
          → Causal root s.notices
            × ((p : ℕ)
                → is_delivered (s.blocks p) ≡ true
                → 0 < times p (told_blocks s.notices ++ root ∷ []))
      delivery_order-Causal s reached =
          let h = ReceiverReached-Good s reached in
          (h.causal, λ p t. h.told p (sym (is_delivered_lem (s.blocks p)) ∙ t))
