-- ===== src/Catchain/Graph/Linking.antt =====
-- The loop of `initialize` over the dependencies of a block (received_block.rs).
use mathlib.Core.Path.{fun_ext}
use ton_labs_node.Base.{
  ℕ, ◌+◌, ◌≤◌, ◌≡◌, refl, sym, ap, ◌∙◌, subst, true, false, List, [], ◌∷◌, ◌++◌, ◌==◌,
  if◌then◌else◌, Bool-cases, inl, inr, arith,
}
use ton_labs_node.Catchain.Times.{times, times-append}
use ton_labs_node.Catchain.Block.{
  ReceivedBlock, ReceivedBlockState, null, ill, initialized, delivered, is_delivered,
  update_forks_dependency_heights,
}
use ton_labs_node.Catchain.Delivery.{NewBlock, put, link_dep, link_deps}
use ton_labs_node.Catchain.Graph.{View, view, delivered_state, arrived, waiting, IsGraph, put_cases}
use ton_labs_node.Catchain.Graph.Changes.{change-IsGraph}

-- The views of all blocks.
abbrev pub views : (ℕ → ReceivedBlock) → ℕ → View
views blocks k = view (blocks k)

pub is_delivered_lem : (block : ReceivedBlock) → is_delivered block ≡ arrived (view block)
unfolding is_delivered view
is_delivered_lem block = go block.state
  where
    go :
        (s : ReceivedBlockState)
        → elim s [ null ↦ false | ill ↦ false | initialized ↦ false | delivered ↦ true ]
          ≡ delivered_state s
    go null = refl
    go ill = refl
    go initialized = refl
    go delivered = refl

pub views-put :
    (blocks : ℕ → ReceivedBlock) (p : ℕ) (block : ReceivedBlock)
    → views (put blocks p block) ≡ put (views blocks) p (view block)
unfolding put
views-put blocks p block =
    fun_ext (λ k. elim (Bool-cases (k == p)) [ inl t ↦ rw t refl | inr t ↦ rw t refl ])

pub put_same : (g : ℕ → View) (p : ℕ) (v : View) → v ≡ g p → put g p v ≡ g
put_same g p v e = fun_ext (put_cases g p v (λ k w. w ≡ g k) e (λ k t. refl))

-- A change of a block that the graph does not see.
pub views-put_same :
    (blocks : ℕ → ReceivedBlock) (p : ℕ) (block : ReceivedBlock)
    → view block ≡ view (blocks p)
    → views (put blocks p block) ≡ views blocks
views-put_same blocks p block e =
    views-put blocks p block ∙ put_same (views blocks) p (view block) e

module _ (root : ℕ) (ns : List NewBlock) (p : ℕ) where
  -- The blocks that the list has still to tell of `p` leave room for it.
  abbrev pub Slack : (ℕ → View) → List ℕ → Type 0
  Slack g todo =
      (d : ℕ) → arrived (g d) ≡ false → times p (g d).rev_deps + times d todo ≤ times d (g p).links

  -- What the loop has made of a graph: nothing has arrived, and the waits are counted.
  pub record IsLinked (g g2 : ℕ → View) (todo : List ℕ) (count : ℕ) : Type 0 where
    pub graph : IsGraph root (p ∷ []) [] g2 ns
    pub counts : count ≡ waiting g todo
    pub arrive_same : (k : ℕ) → arrived (g2 k) ≡ arrived (g k)
    pub state_same : (g2 p).state ≡ (g p).state
    pub links_same : (g2 p).links ≡ (g p).links

  -- The block `d` is told that `p` waits for it.
  abbrev told_view : (ℕ → View) → ℕ → View
  told_view g d = record (g d) { rev_deps = (g d).rev_deps ++ p ∷ [] }

  module _ (g : ℕ → View) (d : ℕ) (todo : List ℕ) where
    one_more : times p (told_view g d).rev_deps ≡ times p (g d).rev_deps + 1
    one_more =
        let t : (p == p) ≡ true = ground arith in
        times-append p (g d).rev_deps (p ∷ []) ∙ rw t (omega arith)

    room :
        Slack g (d ∷ todo)
        → arrived (g d) ≡ false
        → times p (told_view g d).rev_deps + times d todo ≤ times d (g p).links
    room slack not_arrived =
        let s = slack d not_arrived in
        let t : (d == d) ≡ true = ground arith in
        let one : ℕ = 1 in
        let here : (if d == d then 1 else 0) ≡ one = rw t refl in omega (arith, one_more, s, here)

    tell-IsGraph :
        IsGraph root (p ∷ []) [] g ns
        → Slack g (d ∷ todo)
        → arrived (g d) ≡ false
        → IsGraph root (p ∷ []) [] (put g d (told_view g d)) ns
    tell-IsGraph h slack not_arrived =
        change-IsGraph root g ns d (told_view g d) (p ∷ []) (p ∷ []) [] [] h refl refl (λ y. y)
          (λ r z. h.counted d r z) (λ q t z. z) (λ q t. omega arith)
          (λ a q. elim (Bool-cases (p == q)) [
            | inl t ↦
                let e : p ≡ q = ground arith in
                let r = room slack not_arrived in
                subst (λ x. times x (told_view g d).rev_deps ≤ times d (g x).links) e (omega arith)
            | inr t ↦
                let more = times-append q (g d).rev_deps (p ∷ []) in
                let none : ℕ = 0 in
                let none_here : (if p == q then 1 else 0) ≡ none = rw t refl in
                let l = h.linked q d a in omega (arith, more, none_here, l)
          ])

    tell-Slack : Slack g (d ∷ todo) → arrived (g d) ≡ false → Slack (put g d (told_view g d)) todo
    tell-Slack slack not_arrived e a =
        let v = told_view g d in
        let links : (put g d v p).links ≡ (g p).links =
          put_cases g d v (λ k w. w.links ≡ (g k).links) refl (λ k t. refl) p in
        subst (λ ls. times p (put g d v e).rev_deps + times e todo ≤ times e ls) (sym links)
          (put_cases g d v
            (λ k w. arrived w ≡ false → times p w.rev_deps + times k todo ≤ times k (g p).links)
            (λ y. room slack not_arrived) (λ k t y. (let s = slack k y in omega arith)) e a)

  -- A dependency that has arrived is passed over.
  pass-Slack : (g : ℕ → View) (d : ℕ) (todo : List ℕ) → Slack g (d ∷ todo) → Slack g todo
  pass-Slack g d todo slack e a = (let s = slack e a in omega arith)

  -- What one dependency makes of a graph.
  record IsStep (g g2 : ℕ → View) (todo : List ℕ) : Type 0 where
    pub graph : IsGraph root (p ∷ []) [] g2 ns
    pub slack : Slack g2 todo
    pub arrive_same : (k : ℕ) → arrived (g2 k) ≡ arrived (g k)
    pub state_same : (g2 p).state ≡ (g p).state
    pub links_same : (g2 p).links ≡ (g p).links

  told_views :
      (blocks : ℕ → ReceivedBlock) (d : ℕ)
      → is_delivered (blocks d) ≡ false
      → views (link_dep blocks p d) ≡ put (views blocks) d (told_view (views blocks) d)
  unfolding link_dep view
  told_views blocks d t =
      let block = record (blocks d) { rev_deps = (blocks d).rev_deps ++ p ∷ [] } in
      rw t (views-put blocks d block)

  passed_views :
      (blocks : ℕ → ReceivedBlock) (d : ℕ)
      → is_delivered (blocks d) ≡ true
      → views (link_dep blocks p d) ≡ views blocks
  unfolding link_dep view
  passed_views blocks d t =
      let block = record (blocks p) {
        forks_dep_heights =
            update_forks_dependency_heights (blocks p).forks_dep_heights
              (blocks d).forks_dep_heights;
      } in
      rw t (views-put_same blocks p block refl)

  link_dep-IsStep :
      (blocks : ℕ → ReceivedBlock) (d : ℕ) (todo : List ℕ)
      → IsGraph root (p ∷ []) [] (views blocks) ns
      → Slack (views blocks) (d ∷ todo)
      → IsStep (views blocks) (views (link_dep blocks p d)) todo
  link_dep-IsStep blocks d todo h slack =
      let g = views blocks in
      elim (Bool-cases (is_delivered (blocks d))) [
        | inl t ↦
            subst (λ x. IsStep g x todo) (sym (passed_views blocks d t))
              (record {
                graph = h;
                slack = pass-Slack g d todo slack;
                arrive_same = λ k. refl;
                state_same = refl;
                links_same = refl;
              })
        | inr t ↦
            let v = told_view g d in
            let a : arrived (g d) ≡ false = sym (is_delivered_lem (blocks d)) ∙ t in
            subst (λ x. IsStep g x todo) (sym (told_views blocks d t))
              (record {
                graph = tell-IsGraph g d todo h slack a;
                slack = tell-Slack g d todo slack a;
                arrive_same = put_cases g d v (λ k w. arrived w ≡ arrived (g k)) refl (λ k u. refl);
                state_same = put_cases g d v (λ k w. w.state ≡ (g k).state) refl (λ k u. refl) p;
                links_same = put_cases g d v (λ k w. w.links ≡ (g k).links) refl (λ k u. refl) p;
              })
      ]

  pub waiting_by :
      (g g2 : ℕ → View)
      → ((k : ℕ) → arrived (g2 k) ≡ arrived (g k))
      → (deps : List ℕ) → waiting g2 deps ≡ waiting g deps
  waiting_by g g2 same [] = refl
  waiting_by g g2 same (d ∷ deps) =
      ap (λ b. (if b then 0 else 1) + waiting g2 deps) (same d)
      ∙ ap (λ n. (if arrived (g d) then 0 else 1) + n) (waiting_by g g2 same deps)

  pub link_deps-IsLinked :
      (blocks : ℕ → ReceivedBlock) (todo : List ℕ)
      → IsGraph root (p ∷ []) [] (views blocks) ns
      → Slack (views blocks) todo
      → IsLinked (views blocks) (views (link_deps blocks p todo).0) todo (link_deps blocks p todo).1
  unfolding link_deps
  link_deps-IsLinked blocks [] h slack = record {
    graph = h;
    counts = refl;
    arrive_same = λ k. refl;
    state_same = refl;
    links_same = refl;
  }
  link_deps-IsLinked blocks (d ∷ todo) h slack =
      let next = link_dep blocks p d in
      let s = link_dep-IsStep blocks d todo h slack in
      let r = link_deps-IsLinked next todo s.graph s.slack in
      record {
        graph = r.graph;
        counts =
            ap (λ n. (if is_delivered (blocks d) then 0 else 1) + n)
              (r.counts ∙ waiting_by (views blocks) (views next) s.arrive_same todo)
            ∙ ap (λ b. (if b then 0 else 1) + waiting (views blocks) todo)
                (is_delivered_lem (blocks d));
        arrive_same = λ k. r.arrive_same k ∙ s.arrive_same k;
        state_same = r.state_same ∙ s.state_same;
        links_same = r.links_same ∙ s.links_same;
      }
