-- ===== src/Catchain/Graph/Initializing.antt =====
-- The initialisation of a block keeps the invariant of the graph (received_block.rs, `initialize`).
use ton_labs_node.Base.{
  ℕ, ◌+◌, ◌≤◌, ◌≡◌, refl, sym, ap, ◌∙◌, subst, Bool, true, false, not, ◌&&◌, List, [], ◌∷◌, ◌++◌,
  length, ltb, ◌==◌, some, at, unwrap, assert, Always, done-Always, bind-Always, if-Always,
  Bool-cases, inl, inr, arith,
}
use ton_labs_node.Catchain.Times.{times}
use ton_labs_node.Catchain.Block.{
  ReceivedBlock, ReceivedBlockState, null, ill, initialized, delivered,
}
use ton_labs_node.Catchain.Source.{block_received}
use ton_labs_node.Catchain.Delivery.{
  ReceiverState, put, put_block, put_source, is_null, some_ill, set_ill, link_deps,
  schedule_if_ready, schedule, receive, initialize, written,
}
use ton_labs_node.Catchain.Graph.{
  View, view, arrived, delivered_state, ready_state, null_state, waiting, IsGraph, put_cases,
}
use ton_labs_node.Catchain.Graph.Changes.{change-IsGraph, begin-IsGraph}
use ton_labs_node.Catchain.Graph.Linking.{
  views, views-put, views-put_same, Slack, waiting_by, IsLinked, link_deps-IsLinked,
}
use ton_labs_node.Catchain.Graph.Illness.{Good, IsSame, same-Good, set_ill_self-Good, is_null_lem}

null_not_arrived : (v : View) → null_state v.state ≡ true → arrived v ≡ false
null_not_arrived v e = go v.state e
  where
    go : (s : ReceivedBlockState) → null_state s ≡ true → delivered_state s ≡ false
    go null e = refl
    go ill e = refl
    go initialized e = refl
    go delivered e = absurd cc

pub only : (p q : ℕ) → (q == p) ≡ false → times q (p ∷ []) ≡ 0
only p q t = (let u : (p == q) ≡ false = ground arith in rw u refl)

pub schedule_if_ready-IsSame :
    (root : ℕ) (s : ReceiverState) (p : ℕ) → IsSame root s (schedule_if_ready s p)
unfolding schedule_if_ready schedule
schedule_if_ready-IsSame root s p =
    let b = s.blocks p in
    elim (Bool-cases (b.pending_deps == 0 && b.in_db)) [
      | inl t ↦ rw t (record { blocks = refl; notices = refl })
      | inr t ↦ rw t (record { blocks = refl; notices = refl })
    ]

module _ (root : ℕ) where
  receive-IsSame :
      (fuel : ℕ) (s : ReceiverState) (p : ℕ) → Always (IsSame root s) (receive fuel s p)
  unfolding receive
  receive-IsSame fuel s p =
      let b = s.blocks p in
      bind-Always (IsSame root s) (at s.sources b.source_id) (λ source _.
        bind-Always (IsSame root s) (unwrap (block_received s.blocks fuel source b.height))
          (λ moved _.
            done-Always (IsSame root s) (put_source s b.source_id moved s.receiver)
              (record { blocks = refl; notices = refl })))

  -- A block that is written to the database.
  pub written-Good : (s : ReceiverState) (p : ℕ) → Good root [] [] s → Good root [] [] (written s p)
  unfolding written schedule view
  written-Good s p h =
      let b = s.blocks p in
      let e = views-put_same s.blocks p (record b { in_db = true }) refl in
      let good = subst (λ g. IsGraph root [] [] g s.notices) (sym e) h in
      elim (Bool-cases b.in_db) [
        | inl t ↦ rw t h
        | inr t ↦ elim (Bool-cases (b.pending_deps == 0)) [
          | inl u ↦ rw (t, u) good
          | inr u ↦ rw (t, u) good
        ]
      ]

  module _ (s : ReceiverState) (p : ℕ) (h : Good root [] [] s)
      (blank : null_state (views s.blocks p).state ≡ true) (block : ReceivedBlock) (todo : List ℕ)
      (ready : ready_state (view block).state ≡ true)
      (not_null : null_state (view block).state ≡ false)
      (not_arrived : arrived (view block) ≡ false) (links : (view block).links ≡ todo)
      (revs : (view block).rev_deps ≡ (views s.blocks p).rev_deps) where
    begun-IsGraph : IsGraph root (p ∷ []) [] (put (views s.blocks) p (view block)) s.notices
    begun-IsGraph =
        begin-IsGraph root (views s.blocks) s.notices p (view block) h blank
          (null_not_arrived (views s.blocks p) blank) ready not_arrived not_null revs

    begun_links : (put (views s.blocks) p (view block) p).links ≡ todo
    begun_links =
        put_cases (views s.blocks) p (view block) (λ k w. k ≡ p → w.links ≡ todo) (λ e. links)
          (λ k t e. absurd (ground (arith, t, e))) p refl

    begun-Slack : Slack root s.notices p (put (views s.blocks) p (view block)) todo
    begun-Slack =
        let g = views s.blocks in
        let v = view block in
        let here = begun_links in
        let empty : (d : ℕ) → arrived (g d) ≡ false → times p (g d).rev_deps ≡ 0 = λ d a.
          let m = h.linked p d a in
          let z = subst (λ ls. times p (g d).rev_deps ≤ times d ls) (h.blank p blank) m in
          omega arith in
        λ d a.
          subst (λ ls. times p (put g p v d).rev_deps + times d todo ≤ times d ls) (sym here)
            (put_cases g p v
              (λ k w. arrived w ≡ false → times p w.rev_deps + times k todo ≤ times k todo)
              (λ y.
                let z = empty p (null_not_arrived (g p) blank) in
                subst (λ rs. times p rs + times p todo ≤ times p todo) (sym revs) (omega arith))
              (λ k t y. (let z = empty k y in omega arith)) d a)

    begun_views : views (put s.blocks p block) ≡ put (views s.blocks) p (view block)
    begun_views = views-put s.blocks p block

    begun_good : IsGraph root (p ∷ []) [] (views (put s.blocks p block)) s.notices
    begun_good = subst (λ g. IsGraph root (p ∷ []) [] g s.notices) (sym begun_views) begun-IsGraph

    begun_not_arrived : arrived (views (put s.blocks p block) p) ≡ false
    begun_not_arrived =
        ap (λ g. arrived (g p)) begun_views
        ∙ put_cases (views s.blocks) p (view block) (λ k w. k ≡ p → arrived w ≡ false)
            (λ e. not_arrived) (λ k t e. absurd (ground (arith, t, e))) p refl

    begun-IsLinked :
        IsLinked root s.notices p
          (views (put s.blocks p block))
          (views (link_deps (put s.blocks p block) p todo).0)
          todo
          (link_deps (put s.blocks p block) p todo).1
    begun-IsLinked =
        link_deps-IsLinked root s.notices p (put s.blocks p block) todo begun_good
          (subst (λ g. Slack root s.notices p g todo) (sym begun_views) begun-Slack)

    -- The graph once the count of the loop is kept by the block.
    finished-IsGraph :
        (let linked = link_deps (put s.blocks p block) p todo in
          IsGraph root [] []
            (views (put linked.0 p (record (linked.0 p) { pending_deps = linked.1 })))
            s.notices)
    unfolding view
    finished-IsGraph =
        let linked = link_deps (put s.blocks p block) p todo in
        let g = views linked.0 in
        let r = begun-IsLinked in
        let c = record (linked.0 p) { pending_deps = linked.1 } in
        let here : (views (put s.blocks p block) p).links ≡ todo =
          ap (λ x. (x p).links) begun_views ∙ begun_links in
        let same : waiting g (g p).links ≡ linked.1 =
          ap (waiting g) (r.links_same ∙ here)
          ∙ waiting_by root s.notices p (views (put s.blocks p block)) g r.arrive_same todo
          ∙ sym r.counts in
        subst (λ x. IsGraph root [] [] x s.notices) (sym (views-put linked.0 p c))
          (change-IsGraph root g s.notices p (view c) (p ∷ []) [] [] [] r.graph refl refl (λ y. y)
            (λ y z. omega (arith, same)) (λ q t z. only p q t) (λ q t. omega arith)
            (λ a q. r.graph.linked q p a))

  pub initialize-Good :
      (fuel : ℕ) (s : ReceiverState) (p prev : ℕ) (deps signature payload : List ℕ)
      → Good root [] [] s
      → Always (λ r. Good root [] [] r.0) (initialize fuel s p prev deps signature payload)
  unfolding initialize view
  initialize-Good fuel s p prev deps signature payload h =
      let P : ReceiverState × Bool → Type 0 = λ r. Good root [] [] r.0 in
      let old = s.blocks p in
      let todo = prev ∷ (old.block_deps ++ deps) in
      let block = record old {
        payload = payload;
        prev = some prev;
        block_deps = old.block_deps ++ deps;
        signature = signature;
        state = initialized;
      } in
      let begun = put_block s p block in
      let linked = link_deps begun.blocks p todo in
      let counted = record begun {
        blocks = put linked.0 p (record (linked.0 p) { pending_deps = linked.1 });
      } in
      if-Always P (not (is_null old)) (λ t. done-Always P (s, true) h)
        (λ t.
          let blank : null_state old.state ≡ true = sym (is_null_lem old) ∙ ground arith in
          bind-Always P (assert (ltb 0 (length payload))) (λ _ _.
            if-Always P (some_ill begun.blocks todo)
              (λ u. bind-Always P (set_ill fuel begun (p ∷ [])) (λ marked e.
                done-Always P (marked, false)
                  (set_ill_self-Good root fuel begun p (p ∷ [])
                    (begun_good s p h blank block todo refl refl refl refl refl) (only p)
                    (begun_not_arrived s p h blank block todo refl refl refl refl refl) marked e)))
              (λ u.
                let good = finished-IsGraph s p h blank block todo refl refl refl refl refl in
                let ready = schedule_if_ready counted p in
                let same = schedule_if_ready-IsSame root counted p in
                bind-Always P (receive fuel ready p) (λ received e.
                  done-Always P (received, true)
                    (same-Good root [] [] ready received (receive-IsSame fuel ready p received e)
                      (same-Good root [] [] counted ready same good))))))
