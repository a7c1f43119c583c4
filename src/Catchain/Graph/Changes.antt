-- ===== src/Catchain/Graph/Changes.antt =====
-- The changes of one block that keep the invariant of the graph.
use ton_labs_node.Base.{
  ℕ, ◌+◌, ◌<◌, ◌≤◌, ◌≡◌, refl, sym, ◌∙◌, subst, true, false, List, [], ◌∷◌, ◌++◌, ◌==◌,
  if◌then◌else◌, Bool-cases, inl, inr, arith,
}
use ton_labs_node.Catchain.Times.{times}
use ton_labs_node.Catchain.Delivery.{NewBlock, put}
use ton_labs_node.Catchain.Graph.{
  View, links_of, arrived, null_state, ready_state, waiting, told_blocks, IsGraph, waiting_none,
  put_cases, waiting_same, wait_ends,
}

module _ (root : ℕ) (g : ℕ → View) (ns : List NewBlock) (p : ℕ) (v : View) where
  -- A change after which the block depends on the same blocks, and has not arrived by it.
  pub change-IsGraph :
      (exempt exempt2 extra extra2 : List ℕ)
      → IsGraph root exempt extra g ns
      → arrived v ≡ arrived (g p)
      → v.links ≡ (g p).links
      → (null_state v.state ≡ true → null_state (g p).state ≡ true)
      → (ready_state v.state ≡ true
          → times p exempt2 ≡ 0
          → waiting g (g p).links + times p extra2 ≤ v.pending)
      → ((q : ℕ) → (q == p) ≡ false → times q exempt2 ≡ 0 → times q exempt ≡ 0)
      → ((q : ℕ) → (q == p) ≡ false → times q extra2 ≤ times q extra)
      → (arrived v ≡ false → (q : ℕ) → times q v.rev_deps ≤ times p (g q).links)
      → IsGraph root exempt2 extra2 (put g p v) ns
  change-IsGraph exempt exempt2 extra extra2 h same links null_same counted fewer less linked =
      let g2 = put g p v in
      let link_same : (q : ℕ) → (g2 q).links ≡ (g q).links =
        put_cases g p v (λ k w. w.links ≡ (g k).links) links (λ k t. refl) in
      let arrive_same : (q : ℕ) → arrived (g2 q) ≡ arrived (g q) =
        put_cases g p v (λ k w. arrived w ≡ arrived (g k)) same (λ k t. refl) in
      record {
        counted = λ q r e.
            subst (λ ls. waiting g2 ls + times q extra2 ≤ (g2 q).pending) (sym (link_same q))
              (subst (λ n. n + times q extra2 ≤ (g2 q).pending)
                (sym (waiting_same g p v same (g q).links))
                (put_cases g p v
                  (λ k w.
                    ready_state w.state ≡ true
                    → times k exempt2 ≡ 0
                    → waiting g (g k).links + times k extra2 ≤ w.pending)
                  counted
                  (λ k t y z.
                    let l = less k t in let c = h.counted k y (fewer k t z) in omega arith)
                  q r e));
        linked = λ q d a.
            subst (λ ls. times q (g2 d).rev_deps ≤ times d ls) (sym (link_same q))
              (put_cases g p v (λ k w. arrived w ≡ false → times q w.rev_deps ≤ times k (g q).links)
                (λ y. linked y q) (λ k t y. h.linked q k y) d a);
        closed = λ q d a t.
            arrive_same d
            ∙ h.closed q d (sym (arrive_same q) ∙ a) (subst (λ ls. 0 < times d ls) (link_same q) t);
        blank = λ q e.
            link_same q
            ∙ h.blank q (
                put_cases g p v (λ k w. null_state w.state ≡ true → null_state (g k).state ≡ true)
                  null_same (λ k t y. y) q e);
        told = λ q a. h.told q (sym (arrive_same q) ∙ a);
        known = λ q l. arrive_same q ∙ h.known q l;
        causal = h.causal;
      }

  -- A null block begins to depend on blocks; what it waits for is not yet counted.
  pub begin-IsGraph :
      IsGraph root [] [] g ns
      → null_state (g p).state ≡ true
      → arrived (g p) ≡ false
      → ready_state v.state ≡ true
      → arrived v ≡ false
      → null_state v.state ≡ false
      → v.rev_deps ≡ (g p).rev_deps
      → IsGraph root (p ∷ []) [] (put g p v) ns
  begin-IsGraph h blank fresh ready not_arrived not_null revs =
      let g2 = put g p v in
      let none_linked : (g p).links ≡ [] = h.blank p blank in
      let arrive_same : (q : ℕ) → arrived (g2 q) ≡ arrived (g q) =
        put_cases g p v (λ k w. arrived w ≡ arrived (g k)) (not_arrived ∙ sym fresh)
          (λ k t. refl) in
      let rev_same : (q : ℕ) → (g2 q).rev_deps ≡ (g q).rev_deps =
        put_cases g p v (λ k w. w.rev_deps ≡ (g k).rev_deps) revs (λ k t. refl) in
      record {
        counted =
            put_cases g p v
              (λ k w.
                ready_state w.state ≡ true
                → times k (p ∷ []) ≡ 0
                → waiting g2 w.links + 0 ≤ w.pending)
              (λ r e. (let t : (p == p) ≡ true = ground arith in absurd (ground (arith, e, t))))
              (λ k t r e.
                let s = waiting_same g p v (not_arrived ∙ sym fresh) (g k).links in
                let c = h.counted k r refl in omega arith);
        linked = λ q d a.
            let l = h.linked q d (sym (arrive_same d) ∙ a) in
            subst (λ rs. times q rs ≤ times d (g2 q).links) (sym (rev_same d))
              (put_cases g p v
                (λ k w.
                  times k (g d).rev_deps ≤ times d (g k).links
                  → times k (g d).rev_deps ≤ times d w.links)
                (λ m.
                  (let z : times p (g d).rev_deps ≤ 0 =
                      subst (λ ls. times p (g d).rev_deps ≤ times d ls) none_linked m in
                    omega arith))
                (λ k t m. m) q l);
        closed = λ q d a.
            put_cases g p v (λ k w. arrived w ≡ true → 0 < times d w.links → arrived (g2 d) ≡ true)
              (λ y t. absurd (cc (y, not_arrived))) (λ k t y u. arrive_same d ∙ h.closed k d y u) q
              a;
        blank =
            put_cases g p v (λ k w. null_state w.state ≡ true → w.links ≡ [])
              (λ e. absurd (cc (e, not_null))) (λ k t e. h.blank k e);
        told = λ q a. h.told q (sym (arrive_same q) ∙ a);
        known = λ q l. arrive_same q ∙ h.known q l;
        causal = h.causal;
      }

  -- A block that waits for nothing arrives; the blocks that wait for it have still to be told.
  pub arrive-IsGraph :
      (n : NewBlock)
      → IsGraph root [] [] g ns
      → ready_state (g p).state ≡ true
      → arrived (g p) ≡ false
      → (g p).pending ≡ 0
      → n.block ≡ p
      → links_of n.prev n.deps ≡ (g p).links
      → arrived v ≡ true
      → ready_state v.state ≡ false
      → null_state v.state ≡ false
      → v.links ≡ (g p).links
      → IsGraph root [] (g p).rev_deps (put g p v) (n ∷ ns)
  arrive-IsGraph n h ready before pending named noted after not_ready not_null links =
      let g2 = put g p v in
      let later : (d : ℕ) → arrived (g d) ≡ true → arrived (g2 d) ≡ true =
        put_cases g p v (λ k w. arrived (g k) ≡ true → arrived w ≡ true) (λ y. after)
          (λ k t y. y) in
      let nothing : waiting g (g p).links ≡ 0 =
        (let c = h.counted p ready refl in omega (arith, pending)) in
      let all_arrived : (d : ℕ) → 0 < times d (g p).links → arrived (g d) ≡ true =
        λ d. waiting_none g (g p).links d nothing in
      let untold : times n.block (told_blocks ns ++ root ∷ []) ≡ 0 =
        elim (Bool-cases (times p (told_blocks ns ++ root ∷ []) == 0)) [
          | inl t ↦
              subst (λ x. times x (told_blocks ns ++ root ∷ []) ≡ 0) (sym named) (ground arith)
          | inr t ↦ (let k = h.known p (ground arith) in absurd (cc (k, before)))
        ] in
      record {
        counted =
            put_cases g p v
              (λ k w.
                ready_state w.state ≡ true
                → times k [] ≡ 0
                → waiting g2 w.links + times k (g p).rev_deps ≤ w.pending)
              (λ r e. absurd (cc (r, not_ready)))
              (λ k t r e.
                let s = wait_ends g p v before after (g k).links in
                let c = h.counted k r refl in let l = h.linked k p before in omega arith);
        linked = λ q.
            put_cases g p v (λ k w. arrived w ≡ false → times q w.rev_deps ≤ times k (g2 q).links)
              (λ a. absurd (cc (a, after)))
              (λ d t a.
                put_cases g p v
                  (λ k w.
                    times k (g d).rev_deps ≤ times d (g k).links
                    → times k (g d).rev_deps ≤ times d w.links)
                  (λ m. subst (λ ls. times p (g d).rev_deps ≤ times d ls) (sym links) m)
                  (λ k u m. m) q (h.linked q d a));
        closed = λ q d a.
            put_cases g p v (λ k w. arrived w ≡ true → 0 < times d w.links → arrived (g2 d) ≡ true)
              (λ y t. later d (all_arrived d (subst (λ ls. 0 < times d ls) links t)))
              (λ k t y u. later d (h.closed k d y u)) q a;
        blank =
            put_cases g p v (λ k w. null_state w.state ≡ true → w.links ≡ [])
              (λ e. absurd (cc (e, not_null))) (λ k t e. h.blank k e);
        told =
            put_cases g p v
              (λ k w.
                arrived w ≡ true
                → 0 < (if n.block == k then 1 else 0) + times k (told_blocks ns ++ root ∷ []))
              (λ y. (let t : (n.block == p) ≡ true = ground (arith, named) in rw t (omega arith)))
              (λ k t y. (let m = h.told k y in omega (arith, m)));
        known =
            put_cases g p v
              (λ k w.
                0 < (if n.block == k then 1 else 0) + times k (told_blocks ns ++ root ∷ [])
                → arrived w ≡ true)
              (λ l. after)
              (λ k t l.
                let u : (n.block == k) ≡ false = ground (arith, named) in
                let m =
                  subst (λ b. 0 < (if b then 1 else 0) + times k (told_blocks ns ++ root ∷ [])) u
                    l in
                h.known k (omega arith));
        causal = (
          λ d t. h.told d (all_arrived d (subst (λ ls. 0 < times d ls) noted t)),
          untold,
          h.causal,
        );
      }
