-- ===== src/Catchain/Graph/Delivering.antt =====
-- The delivery of a block keeps the invariant of the graph (received_block.rs, `deliver`).
use ton_labs_node.Base.{
  ℕ, ◌+◌, ◌-◌, ◌≤◌, ◌≡◌, refl, sym, ◌∙◌, subst, Bool, true, false, not, List, [], ◌∷◌, ltb, ◌==◌,
  if◌then◌else◌, done, at, unwrap, assert, Always, done-Always, bind-Always, if-Always, arith,
}
use ton_labs_node.Catchain.Times.{times}
use ton_labs_node.Catchain.Block.{
  ReceivedBlock, ReceivedBlockState, null, ill, initialized, delivered, BlockDep,
  update_forks_dependency_heights,
}
use ton_labs_node.Catchain.Source.{block_delivered}
use ton_labs_node.Catchain.Delivery.{
  ReceiverState, put, put_block, put_source, is_ill, is_ready, schedule_if_ready,
}
use ton_labs_node.Catchain.Process.{
  BlockContent, dependency_delivered, notify_rev_deps, notice_of, deliver,
}
use ton_labs_node.Catchain.Graph.{
  View, view, arrived, delivered_state, ready_state, waiting, IsGraph,
}
use ton_labs_node.Catchain.Graph.Changes.{change-IsGraph, arrive-IsGraph}
use ton_labs_node.Catchain.Graph.Linking.{views, views-put}
use ton_labs_node.Catchain.Graph.Illness.{Good, same-Good, is_ready_lem}
use ton_labs_node.Catchain.Graph.Initializing.{schedule_if_ready-IsSame}

pub ready_not_arrived : (v : View) → ready_state v.state ≡ true → arrived v ≡ false
ready_not_arrived v e = go v.state e
  where
    go : (s : ReceivedBlockState) → ready_state s ≡ true → delivered_state s ≡ false
    go null e = refl
    go ill e = refl
    go initialized e = refl
    go delivered e = absurd cc

pub asserted : (t : Bool) (u : Unit {0}) → assert t ≡ done u → t ≡ true
asserted true u e = refl
asserted false u e = absurd cc

module _ (root : ℕ) where
  told-Good :
      (s : ReceiverState) (r : ℕ) (todo : List ℕ) → Good root [] (r ∷ todo) s → Good root [] todo s
  told-Good s r todo h = record {
    counted = λ q y z. (let c = h.counted q y z in omega arith);
    linked = h.linked;
    closed = h.closed;
    blank = h.blank;
    told = h.told;
    known = h.known;
    causal = h.causal;
  }

  dependency_delivered-Good :
      (s : ReceiverState) (block : ReceivedBlock) (r : ℕ) (todo : List ℕ)
      → Good root [] (r ∷ todo) s
      → Always (Good root [] todo) (dependency_delivered s block r)
  unfolding dependency_delivered view
  dependency_delivered-Good s block r todo h =
      let waits = s.blocks r in
      let next = record waits {
        forks_dep_heights =
            update_forks_dependency_heights waits.forks_dep_heights block.forks_dep_heights;
        pending_deps = waits.pending_deps - 1;
      } in
      let changed = put_block s r next in
      let P = Good root [] todo in
      let g = views s.blocks in
      if-Always P (is_ill waits) (λ t. done-Always P s (told-Good s r todo h))
        (λ t. bind-Always P (assert (not (is_ill block))) (λ _ _.
          bind-Always P (assert (ltb 0 waits.pending_deps)) (λ u e.
            let some_pending = asserted (ltb 0 waits.pending_deps) u e in
            let good =
              subst (λ x. IsGraph root [] todo x s.notices) (sym (views-put s.blocks r next))
                (change-IsGraph root g s.notices r (view next) [] [] (r ∷ todo) todo h refl refl
                  (λ y. y)
                  (λ y z.
                    let c = h.counted r y z in
                    let t2 : (r == r) ≡ true = ground arith in
                    let c2 =
                      subst
                        (λ b.
                          waiting g (g r).links + ((if b then 1 else 0) + times r todo)
                          ≤ (g r).pending)
                        t2 c in
                    omega arith)
                  (λ q t z. z) (λ q t. omega arith) (λ a q. h.linked q r a)) in
            done-Always P (schedule_if_ready changed r) (
              same-Good root [] todo changed (schedule_if_ready changed r)
                (schedule_if_ready-IsSame root changed r) good))))

  notify_rev_deps-Good :
      (s : ReceiverState) (block : ReceivedBlock) (todo : List ℕ)
      → Good root [] todo s
      → Always (Good root [] []) (notify_rev_deps s block todo)
  unfolding notify_rev_deps
  notify_rev_deps-Good s block [] h = done-Always (Good root [] []) s h
  notify_rev_deps-Good s block (r ∷ todo) h =
      bind-Always (Good root [] []) (dependency_delivered s block r) (λ next e.
        notify_rev_deps-Good next block todo (dependency_delivered-Good s block r todo h next e))

  -- The block has arrived, and the blocks that wait for it have still to be told.
  arrived-Good :
      (s : ReceiverState) (p : ℕ)
      → Good root [] [] s
      → ready_state (views s.blocks p).state ≡ true
      → (s.blocks p).pending_deps ≡ 0
      → Good root [] (s.blocks p).rev_deps (record s {
        blocks = put s.blocks p (record (s.blocks p) { state = delivered });
        notices = notice_of p (s.blocks p) ∷ s.notices;
      })
  unfolding view notice_of
  arrived-Good s p h ready pending =
      let block = s.blocks p in
      let b = record block { state = delivered } in
      subst (λ x. IsGraph root [] block.rev_deps x (notice_of p block ∷ s.notices))
        (sym (views-put s.blocks p b))
        (arrive-IsGraph root (views s.blocks) s.notices p (view b) (notice_of p block) h ready
          (ready_not_arrived (view block) ready) pending refl refl refl refl refl refl)

  -- The block forgets the blocks that waited for it.
  cleared-Good :
      (s : ReceiverState) (p : ℕ)
      → Good root [] [] s
      → Good root [] [] (put_block s p (record (s.blocks p) { rev_deps = [] }))
  unfolding view
  cleared-Good s p h =
      let b = record (s.blocks p) { rev_deps = [] } in
      subst (λ x. IsGraph root [] [] x s.notices) (sym (views-put s.blocks p b))
        (change-IsGraph root (views s.blocks) s.notices p (view b) [] [] [] [] h refl refl (λ y. y)
          (λ y z. h.counted p y z) (λ q t z. z) (λ q t. omega arith) (λ a q. omega arith))

  pub deliver-Good :
      (fuel : ℕ) (parse : List ℕ → BlockContent) (valid : ReceiverState → BlockDep → Bool)
      (s : ReceiverState) (p : ℕ)
      → Good root [] [] s
      → Always (Good root [] []) (deliver fuel parse valid s p)
  unfolding deliver
  deliver-Good fuel parse valid s p h =
      let P = Good root [] [] in
      let block = s.blocks p in
      let told = record s {
        blocks = put s.blocks p (record block { state = delivered });
        notices = notice_of p block ∷ s.notices;
      } in
      if-Always P (is_ill block) (λ t. done-Always P s h)
        (λ t. bind-Always P (assert (is_ready block)) (λ u e.
          bind-Always P (assert (block.pending_deps == 0)) (λ u2 e2.
            bind-Always P (assert block.in_db) (λ _ _.
              let ready : ready_state block.state ≡ true =
                sym (is_ready_lem block) ∙ asserted (is_ready block) u e in
              let pending_none = asserted (block.pending_deps == 0) u2 e2 in
              let none : block.pending_deps ≡ 0 = ground arith in
              bind-Always P (notify_rev_deps told (told.blocks p) block.rev_deps) (λ notified e3.
                let g =
                  notify_rev_deps-Good told (told.blocks p) block.rev_deps
                    (arrived-Good s p h (unfold view in ready) none) notified e3 in
                let cleared = put_block notified p (record (notified.blocks p) { rev_deps = [] }) in
                bind-Always P (at cleared.sources block.source_id) (λ source _.
                  bind-Always P (unwrap (block_delivered cleared.blocks fuel source block.height))
                    (λ moved _.
                      done-Always P (put_source cleared block.source_id moved cleared.receiver)
                        (cleared-Good notified p g))))))))
