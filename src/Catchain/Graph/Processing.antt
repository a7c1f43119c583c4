-- ===== src/Catchain/Graph/Processing.antt =====
-- The processing of a block keeps the invariant of the graph (received_block.rs, `process`), and what
-- follows for all that a receiver does with its blocks.
use ton_labs_node.Base.{
  ℕ, ◌≡◌, refl, sym, ◌∙◌, subst, Bool, true, not, ◌&&◌, List, [], ◌∷◌, set, ltb, ◌==◌, some,
  is_some, Outcome, at, unwrap, assert, Always, done-Always, bind-Always, if-Always,
}
use ton_labs_node.Catchain.Block.{ReceivedBlock, BlockDep, BlockDataFork}
use ton_labs_node.Catchain.Source
use ton_labs_node.Catchain.Source.{ReceiverSource, resized, mark_as_blamed, set_fork_proof}
use ton_labs_node.Catchain.Delivery.{
  ReceiverState, put_block, put_source, is_ill, is_ready, set_ill,
}
use ton_labs_node.Catchain.Process.{
  BlockContent, fork_blame, nop, custom, Verdict, fine, ill_block, blaming, new_fork, choose_fork,
  initialize_fork, check_prev, is_fork, prove_fork, blame_source, check_content, pre_deliver,
  process,
}
use ton_labs_node.Catchain.Graph.{view, ready_state, IsGraph}
use ton_labs_node.Catchain.Graph.Linking.{views, views-put_same}
use ton_labs_node.Catchain.Graph.Illness.{Good, is_ready_lem, set_ill_self-Good}
use ton_labs_node.Catchain.Graph.Delivering.{ready_not_arrived, asserted, deliver-Good}

verdict-Always :
    (P : ReceiverState → Type 0) (verdict : Verdict) {x y z : Outcome ReceiverState}
    → Always P x
    → Always P y
    → Always P z
    → Always P (elim verdict [ fine ↦ x | ill_block ↦ y | blaming ↦ z ])
verdict-Always P fine h k l = h
verdict-Always P ill_block h k l = k
verdict-Always P blaming h k l = l

content-Always :
    (P : ReceiverState → Type 0) (content : BlockContent) {x y : Outcome ReceiverState}
    {z : BlockDep → BlockDep → Outcome ReceiverState}
    → Always P x
    → Always P y
    → ((left right : BlockDep) → Always P (z left right))
    → Always P (elim content [ nop ↦ x | custom ↦ y | fork_blame left right ↦ z left right ])
content-Always P nop h k l = h
content-Always P custom h k l = k
content-Always P (fork_blame left right) h k l = l left right

module _ (root : ℕ) where
  abbrev Kept : ReceiverState → Type 0
  Kept = Good root [] []

  -- A change of a block that the graph does not see.
  same_view-Kept :
      (s : ReceiverState) (p : ℕ) (b : ReceivedBlock)
      → view b ≡ view (s.blocks p)
      → Kept s
      → Kept (put_block s p b)
  same_view-Kept s p b e h =
      subst (λ x. IsGraph root [] [] x s.notices) (sym (views-put_same s.blocks p b e)) h

  new_fork-Kept : (s : ReceiverState) (id : ℕ) → Kept s → Always (λ r. Kept r.0) (new_fork s id)
  unfolding new_fork
  new_fork-Kept s id h =
      let P : ReceiverState × ℕ → Type 0 = λ r. Kept r.0 in
      bind-Always P (at s.sources id) (λ source _.
        bind-Always P (Source.add_fork source s.receiver)
          (λ r _. done-Always P (put_source s id r.0 r.1, r.2) h))

  choose_fork-Kept : (s : ReceiverState) (p : ℕ) → Kept s → Always (λ r. Kept r.0) (choose_fork s p)
  unfolding choose_fork view
  choose_fork-Kept s p h =
      let P : ReceiverState × ℕ → Type 0 = λ r. Kept r.0 in
      let block = s.blocks p in
      if-Always P (block.height == 1) (λ t. new_fork-Kept s block.source_id h)
        (λ t. bind-Always P (unwrap block.prev) (λ before _.
          let prev = s.blocks before in
          if-Always P (is_some prev.next) (λ u. new_fork-Kept s block.source_id h)
            (λ u.
              done-Always P (put_block s before (record prev { next = some p }), prev.fork_id)
                (same_view-Kept s before (record prev { next = some p }) refl h))))

  initialize_fork-Kept : (s : ReceiverState) (p : ℕ) → Kept s → Always Kept (initialize_fork s p)
  unfolding initialize_fork view
  initialize_fork-Kept s p h = bind-Always Kept (assert (is_ready (s.blocks p))) (λ _ _.
      bind-Always Kept (assert ((s.blocks p).fork_id == 0)) (λ _ _.
        bind-Always Kept (choose_fork s p) (λ chosen e.
          let block = chosen.0.blocks p in
          let heights = resized block.forks_dep_heights chosen.1 in
          let g = choose_fork-Kept s p h chosen e in
          bind-Always Kept (at heights chosen.1) (λ height _.
            bind-Always Kept (assert (ltb height block.height)) (λ _ _.
              let b = record block {
                fork_id = chosen.1;
                forks_dep_heights = set heights chosen.1 block.height;
              } in
              done-Always Kept (put_block chosen.0 p b) (same_view-Kept chosen.0 p b refl g))))))

  prove_fork-Kept :
      (s : ReceiverState) (left right : BlockDep) → Kept s → Always Kept (prove_fork s left right)
  unfolding prove_fork
  prove_fork-Kept s left right h =
      let fork : BlockDataFork = record { left = left; right = right } in
      bind-Always Kept (at s.sources left.src) (λ source _.
        let marked = mark_as_blamed (set_fork_proof source fork) s.receiver in
        done-Always Kept (put_source s left.src marked.0 marked.1) h)

  module _ (fuel : ℕ) (parse : List ℕ → BlockContent)
      (valid : ReceiverState → BlockDep → Bool) where
    set_ill-Kept :
        (s : ReceiverState) (p : ℕ)
        → Kept s
        → ready_state (views s.blocks p).state ≡ true
        → Always Kept (set_ill fuel s (p ∷ []))
    set_ill-Kept s p h ready =
        set_ill_self-Good root fuel s p [] h (λ q t. refl)
          (ready_not_arrived (views s.blocks p) ready)

    check_content-Kept :
        (s : ReceiverState) (p : ℕ)
        → Kept s
        → ready_state (views s.blocks p).state ≡ true
        → Always Kept (check_content fuel parse valid s p)
    unfolding check_content view
    check_content-Kept s p h ready =
        let block = s.blocks p in
        let b = record block { is_custom = true } in
        content-Always Kept (parse block.payload) (done-Always Kept s h)
          (done-Always Kept (put_block s p b) (same_view-Kept s p b refl h))
          (λ left right.
            if-Always Kept (valid s left && valid s right && is_fork left right)
              (λ t. prove_fork-Kept s left right h) (λ t. set_ill-Kept s p h ready))

    -- A source is blamed; no block changes.
    blame_source-Kept :
        (s : ReceiverState) (p : ℕ)
        → Kept s
        → ready_state (views s.blocks p).state ≡ true
        → Always
            (λ t. Kept t × (ready_state (views t.blocks p).state ≡ true))
            (blame_source s (s.blocks p))
    unfolding blame_source
    blame_source-Kept s p h ready =
        let P : ReceiverState → Type 0 =
          λ t. Kept t × (ready_state (views t.blocks p).state ≡ true) in
        let block = s.blocks p in
        bind-Always P (at s.sources block.source_id) (λ source _.
          bind-Always P (Source.blame source block.fork_id block.height s.receiver)
            (λ blamed _. done-Always P (put_source s block.source_id blamed.0 blamed.1) (h, ready)))

    pre_deliver-Kept :
        (s : ReceiverState) (p : ℕ) → Kept s → Always Kept (pre_deliver fuel parse valid s p)
    unfolding pre_deliver
    pre_deliver-Kept s p h =
        let block = s.blocks p in
        if-Always Kept (is_ill block) (λ t. done-Always Kept s h)
          (λ t. bind-Always Kept (assert (is_ready block)) (λ u e.
            bind-Always Kept (assert (block.pending_deps == 0)) (λ _ _.
              bind-Always Kept (assert block.in_db) (λ _ _.
                let r : ready_state block.state ≡ true =
                  sym (is_ready_lem block) ∙ asserted (is_ready block) u e in
                let ready : ready_state (views s.blocks p).state ≡ true = unfold view in r in
                bind-Always Kept (check_prev s block) (λ verdict _.
                  verdict-Always Kept verdict (check_content-Kept s p h ready)
                    (set_ill-Kept s p h ready)
                    (bind-Always Kept (blame_source s block) (λ blamed e2.
                      let k = blame_source-Kept s p h ready blamed e2 in
                      set_ill-Kept blamed p k.0 k.1)))))))

    pub process-Kept :
        (s : ReceiverState) (p : ℕ) → Kept s → Always Kept (process fuel parse valid s p)
    unfolding process
    process-Kept s p h =
        let block = s.blocks p in
        if-Always Kept (not (is_ready block)) (λ t. done-Always Kept s h)
          (λ t. bind-Always Kept (assert (block.pending_deps == 0)) (λ _ _.
            bind-Always Kept (assert block.in_db) (λ _ _.
              bind-Always Kept (initialize_fork s p) (λ forked e.
                let f = initialize_fork-Kept s p h forked e in
                bind-Always Kept (pre_deliver fuel parse valid forked p) (λ checked e2.
                  let c = pre_deliver-Kept forked p f checked e2 in
                  deliver-Good root fuel parse valid checked p c)))))
