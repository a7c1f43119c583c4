-- ===== src/Catchain/Graph/Illness.antt =====
-- What the operations on sources and the spread of illness do to the graph (received_block.rs).
use ton_labs_node.Base.{
  ℕ, zero, suc, ◌<◌, ◌≡◌, refl, sym, ap, ◌∙◌, subst, Bool, true, false, List, [], ◌∷◌, ◌++◌, ◌==◌,
  at, Always, done-Always, bind-Always, if-Always, All, Bool-cases, inl, inr, arith,
}
use ton_labs_node.Catchain.Times.{times}
use ton_labs_node.Catchain.Block.{
  ReceivedBlock, ReceivedBlockState, null, ill, initialized, delivered,
}
use ton_labs_node.Catchain.Source.{mark_as_blamed}
use ton_labs_node.Catchain.Delivery.{
  ReceiverState, NewBlock, put, put_block, put_source, is_ill, is_ready, is_null, mark_source,
  visit, set_ill,
}
use ton_labs_node.Catchain.Graph.{View, view, arrived, ready_state, null_state, IsGraph, put_cases}
use ton_labs_node.Catchain.Graph.Changes.{change-IsGraph}
use ton_labs_node.Catchain.Graph.Linking.{views, views-put}

abbrev ill_state : ReceivedBlockState → Bool
ill_state null = false
ill_state ill = true
ill_state initialized = false
ill_state delivered = false

is_ill_lem : (block : ReceivedBlock) → is_ill block ≡ ill_state block.state
unfolding is_ill
is_ill_lem block = go block.state
  where
    go :
        (s : ReceivedBlockState)
        → elim s [ null ↦ false | ill ↦ true | initialized ↦ false | delivered ↦ false ]
          ≡ ill_state s
    go null = refl
    go ill = refl
    go initialized = refl
    go delivered = refl

pub is_ready_lem : (block : ReceivedBlock) → is_ready block ≡ ready_state block.state
unfolding is_ready
is_ready_lem block = go block.state
  where
    go :
        (s : ReceivedBlockState)
        → elim s [ null ↦ false | ill ↦ false | initialized ↦ true | delivered ↦ false ]
          ≡ ready_state s
    go null = refl
    go ill = refl
    go initialized = refl
    go delivered = refl

pub is_null_lem : (block : ReceivedBlock) → is_null block ≡ null_state block.state
unfolding is_null
is_null_lem block = go block.state
  where
    go :
        (s : ReceivedBlockState)
        → elim s [ null ↦ true | ill ↦ false | initialized ↦ false | delivered ↦ false ]
          ≡ null_state s
    go null = refl
    go ill = refl
    go initialized = refl
    go delivered = refl

ill_not_ready : (s : ReceivedBlockState) → ill_state s ≡ true → ready_state s ≡ false
ill_not_ready ill e = refl
ill_not_ready null e = absurd cc
ill_not_ready initialized e = absurd cc
ill_not_ready delivered e = refl

module _ (root : ℕ) where
  -- The invariant of a state.
  abbrev pub Good : List ℕ → List ℕ → ReceiverState → Type 0
  Good exempt extra s = IsGraph root exempt extra (views s.blocks) s.notices

  -- The blocks and the notices of a state are those of another.
  pub record IsSame (s t : ReceiverState) : Type 0 where
    pub blocks : t.blocks ≡ s.blocks
    pub notices : t.notices ≡ s.notices

  pub same-Good :
      (exempt extra : List ℕ) (s t : ReceiverState)
      → IsSame s t
      → Good exempt extra s
      → Good exempt extra t
  same-Good exempt extra s t e h =
      subst (λ ns. IsGraph root exempt extra (views t.blocks) ns) (sym e.notices)
        (subst (λ b. IsGraph root exempt extra (views b) s.notices) (sym e.blocks) h)

  pub mark_source-IsSame : (s : ReceiverState) (id : ℕ) → Always (IsSame s) (mark_source s id)
  unfolding mark_source
  mark_source-IsSame s id = bind-Always (IsSame s) (at s.sources id) (λ source _.
      let marked = mark_as_blamed source s.receiver in
      done-Always (IsSame s) (put_source s id marked.0 marked.1)
        (record { blocks = refl; notices = refl }))

  abbrev NotArrived : ReceiverState → ℕ → Type 0
  NotArrived s k = arrived (views s.blocks k) ≡ false

  All-times : (P : ℕ → Type 0) (xs : List ℕ) → ((q : ℕ) → 0 < times q xs → P q) → All P xs
  All-times P [] h = tt
  All-times P (x ∷ xs) h = (
    (let t : (x == x) ≡ true = ground arith in h x (rw t (omega arith))),
    All-times P xs (λ q l. h q (omega arith)),
  )

  All-both : (P : ℕ → Type 0) (xs ys : List ℕ) → All P xs → All P ys → All P (xs ++ ys)
  All-both P [] ys h k = k
  All-both P (x ∷ xs) ys h k = (h.0, All-both P xs ys h.1 k)

  All-map : (P Q : ℕ → Type 0) (xs : List ℕ) → ((q : ℕ) → P q → Q q) → All P xs → All Q xs
  All-map P Q [] f h = tt
  All-map P Q (x ∷ xs) f h = (f x h.0, All-map P Q xs f h.1)

  module _ (s : ReceiverState) (p : ℕ) where
    pub drop-Good :
        (exempt : List ℕ)
        → Good exempt [] s
        → ((q : ℕ) → (q == p) ≡ false → times q exempt ≡ 0)
        → ready_state (views s.blocks p).state ≡ false
        → Good [] [] s
    drop-Good exempt h others not_ready = record {
      counted = λ q r e. elim (Bool-cases (q == p)) [
        | inl t ↦
            let same : p ≡ q = ground arith in
            let f = subst (λ x. ready_state (views s.blocks x).state ≡ false) same not_ready in
            absurd (cc (f, r))
        | inr t ↦ h.counted q r (others q t)
      ];
      linked = h.linked;
      closed = h.closed;
      blank = h.blank;
      told = h.told;
      known = h.known;
      causal = h.causal;
    }

    -- What one call of `set_ill` leads to.
    record IsVisited (blocks : ℕ → ReceivedBlock) (notices : List NewBlock) (more : List ℕ)
        : Type 0 where
      pub good : IsGraph root [] [] (views blocks) notices
      pub arrive_same : (k : ℕ) → arrived (views blocks k) ≡ arrived (views s.blocks k)
      pub waiting_too : All (λ k. arrived (views blocks k) ≡ false) more

    abbrev Visited : ReceiverState × List ℕ → Type 0
    Visited r = IsVisited r.0.blocks r.0.notices r.1

    module _ (exempt : List ℕ) (h : Good exempt [] s)
        (others : (q : ℕ) → (q == p) ≡ false → times q exempt ≡ 0) (a : NotArrived s p) where
      ill-Good :
          IsGraph root [] []
            (put (views s.blocks) p (record (views s.blocks p) { state = ill }))
            s.notices
      ill-Good =
          change-IsGraph root (views s.blocks) s.notices p
            (record (views s.blocks p) { state = ill }) exempt [] [] [] h (sym a) refl
            (λ e. absurd cc) (λ r z. absurd cc) (λ q t z. others q t) (λ q t. omega arith)
            (λ y q. h.linked q p a)

      ill-IsVisited :
          IsVisited
            (put s.blocks p (record (s.blocks p) { state = ill }))
            s.notices
            (s.blocks p).rev_deps
      unfolding view
      ill-IsVisited =
          let b = record (s.blocks p) { state = ill } in
          let v : View = record (views s.blocks p) { state = ill } in
          let e : views (put s.blocks p b) ≡ put (views s.blocks) p v = views-put s.blocks p b in
          let same : (k : ℕ) → arrived (views (put s.blocks p b) k) ≡ arrived (views s.blocks k) =
            λ k.
              ap (λ g. arrived (g k)) e
              ∙ put_cases (views s.blocks) p v (λ j w. arrived w ≡ arrived (views s.blocks j))
                  (sym a) (λ j t. refl) k in
          let good = subst (λ g. IsGraph root [] [] g s.notices) (sym e) ill-Good in
          record {
            good = good;
            arrive_same = same;
            waiting_too =
                All-times (λ k. arrived (views (put s.blocks p b) k) ≡ false) (s.blocks p).rev_deps
                  (λ q l. elim (Bool-cases (arrived (views s.blocks q))) [
                    | inr t ↦ same q ∙ t
                    | inl t ↦
                        let m = h.linked q p a in
                        let c = h.closed q p t (omega arith) in absurd (cc (c, a))
                  ]);
          }

      visit-Visited : Always Visited (visit s p)
      unfolding visit
      visit-Visited =
          let block = s.blocks p in
          let b = record block { state = ill } in
          if-Always Visited (is_ill block)
            (λ t.
              let i = sym (is_ill_lem block) ∙ t in
              let f : ready_state (views s.blocks p).state ≡ false =
                unfold view in ill_not_ready block.state i in
              done-Always Visited (s, [])
                (record {
                  good = drop-Good exempt h others f;
                  arrive_same = λ k. refl;
                  waiting_too = tt;
                }))
            (λ t. bind-Always Visited (mark_source s block.source_id) (λ m e.
              let same = mark_source-IsSame s block.source_id m e in
              done-Always Visited (put_block m p b, block.rev_deps)
                (subst (λ ns. IsVisited (put m.blocks p b) ns block.rev_deps) (sym same.notices)
                  (subst (λ bl. IsVisited (put bl p b) s.notices block.rev_deps) (sym same.blocks)
                    ill-IsVisited))))

  set_ill-Good :
      (fuel : ℕ) (s : ReceiverState) (todo : List ℕ)
      → Good [] [] s
      → All (NotArrived s) todo
      → Always (Good [] []) (set_ill fuel s todo)
  unfolding set_ill
  set_ill-Good zero s todo h a = λ r e. absurd cc
  set_ill-Good (suc fuel) s [] h a = done-Always (Good [] []) s h
  set_ill-Good (suc fuel) s (p ∷ todo) h a = bind-Always (Good [] []) (visit s p) (λ r e.
      let v = visit-Visited s p [] h (λ q t. refl) a.0 r e in
      set_ill-Good fuel r.0 (r.1 ++ todo) v.good (
        All-both (NotArrived r.0) r.1 todo v.waiting_too
          (All-map (NotArrived s) (NotArrived r.0) todo (λ q b. v.arrive_same q ∙ b) a.1)))

  -- A block becomes ill that need not have counted what it waits for.
  pub set_ill_self-Good :
      (fuel : ℕ) (s : ReceiverState) (p : ℕ) (exempt : List ℕ)
      → Good exempt [] s
      → ((q : ℕ) → (q == p) ≡ false → times q exempt ≡ 0)
      → NotArrived s p
      → Always (Good [] []) (set_ill fuel s (p ∷ []))
  unfolding set_ill
  set_ill_self-Good zero s p exempt h others a = λ r e. absurd cc
  set_ill_self-Good (suc fuel) s p exempt h others a = bind-Always (Good [] []) (visit s p) (λ r e.
      let v = visit-Visited s p exempt h others a r e in
      set_ill-Good fuel r.0 (r.1 ++ []) v.good (All-both (NotArrived r.0) r.1 [] v.waiting_too tt))
