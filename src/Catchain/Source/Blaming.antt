-- ===== src/Catchain/Source/Blaming.antt =====
-- When a source is blamed, and what follows from it (receiver_source.rs).
use ton_labs_node.Base.{
  ℕ, ◌+◌, ◌<◌, ◌≡◌, refl, sym, ap, ◌∙◌, Bool, true, false, not, ◌||◌, [], ◌∷◌, ◌++◌, length,
  length-append, ltb, ◌==◌, if◌then◌else◌, Option, none, some, done, assert, Always, done-Always,
  bind-Always, if-Always, option-Always, Bool-cases, inl, inr, arith, subst, ◌⊎◌,
}
use ton_labs_node.Session.SortedVector.Order.{insert}
use ton_labs_node.Catchain.Times.{times, times_last}
use ton_labs_node.Catchain.Block.{
  ReceivedBlock, BlockDataFork, export_tl_dep, is_initialized, is_delivered,
}
use ton_labs_node.Catchain.Source.{
  ReceiverSource, Receiver, new, mark_as_blamed, set_fork_proof, add_fork, next_fork, blame,
  blamed_at, resized, fork_found, process_new_block, get_block, is_fork_found, height_of,
  block_received, block_delivered, advanced,
}

-- A result is the source, or the source with a new height.
same_or_changed :
    (b : Bool) (s t : ReceiverSource) (o : Option ℕ) (change : ℕ → ReceiverSource)
    → (if b then some s else elim o [ none ↦ none | some x ↦ some (change x) ]) ≡ some t
    → (s ≡ t) ⊎ ((b ≡ false) × (x : ℕ) × (change x ≡ t))
same_or_changed true s t o change e = inl cc
same_or_changed false s t (some x) change e = inr (refl, x, cc)
same_or_changed false s t none change e = absurd cc

module _ (id : ℕ) (before : ℕ) where
  -- How often the listener has been told of the source; `before` is how often when it was created.
  abbrev told_of : Bool → ℕ
  told_of true = before + 1
  told_of false = before

  -- The listener is told once of a blamed source, and none of its blocks counts as delivered.
  record IsTold (source : ReceiverSource) (receiver : Receiver) : Type 0 where
    pub named : source.id ≡ id
    pub undelivered : source.blamed ≡ true → source.delivered_height ≡ 0
    pub told : times id receiver.blames ≡ told_of source.blamed

  -- A source with a fork proof, or with several forks, is blamed besides.
  pub record IsSource (source : ReceiverSource) (receiver : Receiver) : Type 0 where
    pub named : source.id ≡ id
    pub undelivered : source.blamed ≡ true → source.delivered_height ≡ 0
    pub told : times id receiver.blames ≡ told_of source.blamed
    pub proven : is_fork_found source ≡ true → source.blamed ≡ true
    pub forked : 1 < length source.fork_ids → source.blamed ≡ true

  weaken : (s : ReceiverSource) (r : Receiver) → IsSource s r → IsTold s r
  weaken s r h = record { named = h.named; undelivered = h.undelivered; told = h.told }

  -- A source that has been marked is blamed, with the forks and the proof that it had.
  record IsMarked (s : ReceiverSource) (p : ReceiverSource × Receiver) : Type 0 where
    pub good : IsTold p.0 p.1
    pub blamed : p.0.blamed ≡ true
    pub forks : p.0.fork_ids ≡ s.fork_ids

  mark-IsMarked : (s : ReceiverSource) (r : Receiver) → IsTold s r → IsMarked s (mark_as_blamed s r)
  unfolding mark_as_blamed
  mark-IsMarked s r h =
      let after : ReceiverSource × Receiver = (
        record s { blamed = true; blocks = []; delivered_height = 0 },
        record r { blames = r.blames ++ s.id ∷ [] },
      ) in
      elim (Bool-cases s.blamed) [
        | inl t ↦
            let e : mark_as_blamed s r ≡ (s, r) = ap (λ b. if b then (s, r) else after) t in
            subst (IsMarked s) (sym e) (record { good = h; blamed = t; forks = refl })
        | inr t ↦
            let e : mark_as_blamed s r ≡ after = ap (λ b. if b then (s, r) else after) t in
            subst (IsMarked s) (sym e) (record {
              good = record {
                named = h.named;
                undelivered = λ q. refl;
                told =
                    ap (λ i. times id (r.blames ++ i ∷ [])) h.named
                    ∙ times_last id r.blames
                    ∙ ap (λ n. n + 1) (h.told ∙ ap told_of t);
              };
              blamed = refl;
              forks = refl;
            })
      ]

  marked-IsSource :
      (s : ReceiverSource) (p : ReceiverSource × Receiver) → IsMarked s p → IsSource p.0 p.1
  marked-IsSource s p m = record {
    named = m.good.named;
    undelivered = m.good.undelivered;
    told = m.good.told;
    proven = λ e. m.blamed;
    forked = λ l. m.blamed;
  }

  abbrev Stays : ReceiverSource × Receiver → Type 0
  Stays p = IsSource p.0 p.1

  set_fork_proof-IsTold :
      (s : ReceiverSource) (r : Receiver) (f : BlockDataFork)
      → IsTold s r
      → IsTold (set_fork_proof s f) r
  unfolding set_fork_proof
  set_fork_proof-IsTold s r f h = elim (Bool-cases (is_fork_found s)) [
    | inl t ↦ rw t h
    | inr t ↦ rw t (record { named = h.named; undelivered = h.undelivered; told = h.told })
  ]

  proves-IsSource :
      (s : ReceiverSource) (r : Receiver) (f : BlockDataFork)
      → IsSource s r
      → Stays (mark_as_blamed (set_fork_proof s f) r)
  proves-IsSource s r f h =
      let t = set_fork_proof s f in
      marked-IsSource t (mark_as_blamed t r)
        (mark-IsMarked t r (set_fork_proof-IsTold s r f (weaken s r h)))

  process-IsSource :
      (store : ℕ → ReceivedBlock) (s : ReceiverSource) (pointer : ℕ) (r : Receiver)
      → IsSource s r
      → Always Stays (process_new_block store s pointer r)
  unfolding process_new_block fork_found
  process-IsSource store s pointer r h =
      let block = store pointer in
      if-Always Stays (is_fork_found s) (λ t. done-Always Stays (s, r) h)
        (λ t. bind-Always Stays (assert (block.source_id == s.id)) (λ _ _.
          option-Always Stays (get_block s block.height)
            (done-Always Stays
              (record s { blocks = insert height_of (block.height, pointer) s.blocks }, r)
              (record {
                named = h.named;
                undelivered = h.undelivered;
                told = h.told;
                proven = h.proven;
                forked = h.forked;
              }))
            (λ existing.
              bind-Always Stays (assert (not (block.hash == (store existing).hash))) (λ _ _.
                let f : BlockDataFork = record {
                  left = export_tl_dep block;
                  right = export_tl_dep (store existing);
                } in
                let u : Receiver = record r { pending_proofs = r.pending_proofs ++ f ∷ [] } in
                done-Always Stays (mark_as_blamed (set_fork_proof s f) u) (
                  proves-IsSource s u f (record {
                    named = h.named;
                    undelivered = h.undelivered;
                    told = h.told;
                    proven = h.proven;
                    forked = h.forked;
                  }))))))

  blame-IsSource :
      (s : ReceiverSource) (fork height : ℕ) (r : Receiver)
      → IsSource s r
      → Always Stays (blame s fork height r)
  unfolding blame
  blame-IsSource s fork height r h =
      let p = mark_as_blamed s r in
      let good = marked-IsSource s p (mark-IsMarked s r (weaken s r h)) in
      bind-Always Stays (blamed_at (resized p.0.blamed_heights fork) fork height) (λ heights _.
        done-Always Stays (record p.0 { blamed_heights = heights }, p.1)
          (record {
            named = good.named;
            undelivered = good.undelivered;
            told = good.told;
            proven = good.proven;
            forked = good.forked;
          }))

  -- The source and the receiver with one more fork.
  abbrev with_fork : ReceiverSource × Receiver → ReceiverSource × Receiver
  with_fork p = (
    record p.0 { fork_ids = p.0.fork_ids ++ (p.1.total_forks + 1) ∷ [] },
    record p.1 { total_forks = p.1.total_forks + 1 },
  )

  with_fork-IsSource :
      (p : ReceiverSource × Receiver)
      → IsSource p.0 p.1
      → (1 < length p.0.fork_ids + 1 → p.0.blamed ≡ true)
      → Stays (with_fork p)
  with_fork-IsSource p h forked = record {
    named = h.named;
    undelivered = h.undelivered;
    told = h.told;
    proven = h.proven;
    forked = λ l. forked (omega (arith, length-append p.0.fork_ids ((p.1.total_forks + 1) ∷ [])));
  }

  abbrev After : ReceiverSource × Receiver × ℕ → Type 0
  After p = IsSource p.0 p.1

  add_fork-IsSource :
      (s : ReceiverSource) (r : Receiver) → IsSource s r → Always After (add_fork s r)
  unfolding add_fork next_fork
  add_fork-IsSource s r h =
      let q : ReceiverSource × Receiver =
        if ltb 0 (length s.fork_ids) then mark_as_blamed s r else (s, r) in
      let good : Stays (with_fork q) = elim (Bool-cases (ltb 0 (length s.fork_ids))) [
        | inl t ↦
            let m = mark-IsMarked s r (weaken s r h) in
            rw t (
              with_fork-IsSource (mark_as_blamed s r) (marked-IsSource s (mark_as_blamed s r) m)
                (λ l. m.blamed))
        | inr t ↦ rw t (with_fork-IsSource (s, r) h (λ l. absurd (ground arith)))
      ] in
      let id_of_fork = q.1.total_forks + 1 in
      bind-Always After (assert (ltb 0 id_of_fork)) (λ _ _.
        bind-Always After
          (assert (not (ltb 1 (length ((with_fork q).0.fork_ids))) || (with_fork q).0.blamed))
          (λ _ _. done-Always After ((with_fork q).0, (with_fork q).1, id_of_fork) good))

  received-IsSource :
      (store : ℕ → ReceivedBlock) (fuel : ℕ) (s t : ReceiverSource) (height : ℕ) (r : Receiver)
      → IsSource s r
      → block_received store fuel s height ≡ some t
      → IsSource t r
  unfolding block_received
  received-IsSource store fuel s t height r h e =
      let start = if s.received_height + 1 == height then height else s.received_height in
      elim (same_or_changed s.blamed s t (advanced store is_initialized s fuel start)
        (λ x. record s { received_height = x }) e) [
          | inl q ↦ subst (λ u. IsSource u r) q h
          | inr (open_source, x, q) ↦
              subst (λ u. IsSource u r) q
                (record {
                  named = h.named;
                  undelivered = h.undelivered;
                  told = h.told;
                  proven = h.proven;
                  forked = h.forked;
                })
        ]

  delivered-IsSource :
      (store : ℕ → ReceivedBlock) (fuel : ℕ) (s t : ReceiverSource) (height : ℕ) (r : Receiver)
      → IsSource s r
      → block_delivered store fuel s height ≡ some t
      → IsSource t r
  unfolding block_delivered
  delivered-IsSource store fuel s t height r h e =
      let start = if s.delivered_height + 1 == height then height else s.delivered_height in
      elim (same_or_changed s.blamed s t (advanced store is_delivered s fuel start)
        (λ x. record s { delivered_height = x }) e) [
          | inl q ↦ subst (λ u. IsSource u r) q h
          | inr (open_source, x, q) ↦
              subst (λ u. IsSource u r) q
                (record {
                  named = h.named;
                  undelivered = λ b. absurd (cc (b, open_source));
                  told = h.told;
                  proven = h.proven;
                  forked = h.forked;
                })
        ]

module _ (store : ℕ → ReceivedBlock) (id : ℕ) where
  -- The states of a source, with the receiver that it belongs to, that its operations lead to.
  pub data SourceReached (start : Receiver) : ReceiverSource → Receiver → Type 0 where
    created : SourceReached start (new id) start
    processes :
        {s t : ReceiverSource} {r u : Receiver}
        → SourceReached start s r
        → (pointer : ℕ) → process_new_block store s pointer r ≡ done (t, u)
        → SourceReached start t u
    forks :
        {s t : ReceiverSource} {r u : Receiver}
        → SourceReached start s r
        → (fork_id : ℕ) → add_fork s r ≡ done (t, u, fork_id)
        → SourceReached start t u
    blames :
        {s t : ReceiverSource} {r u : Receiver}
        → SourceReached start s r
        → (fork height : ℕ) → blame s fork height r ≡ done (t, u)
        → SourceReached start t u
    proves :
        {s : ReceiverSource} {r : Receiver}
        → SourceReached start s r
        → (proof : BlockDataFork)
        → SourceReached start
            (mark_as_blamed (set_fork_proof s proof) r).0
            (mark_as_blamed (set_fork_proof s proof) r).1
    receives :
        {s t : ReceiverSource} {r : Receiver}
        → SourceReached start s r
        → (fuel height : ℕ) → block_received store fuel s height ≡ some t
        → SourceReached start t r
    delivers :
        {s t : ReceiverSource} {r : Receiver}
        → SourceReached start s r
        → (fuel height : ℕ) → block_delivered store fuel s height ≡ some t
        → SourceReached start t r
    marks :
        {s : ReceiverSource} {r : Receiver}
        → SourceReached start s r
        → SourceReached start (mark_as_blamed s r).0 (mark_as_blamed s r).1
    -- Other sources change the receiver, and blame other sources only.
    others :
        {s : ReceiverSource} {r u : Receiver}
        → SourceReached start s r
        → times id u.blames ≡ times id r.blames
        → SourceReached start s u

  module _ (start : Receiver) where
    -- In every state that a new source, with the receiver that it belongs to, is led to by its own
    -- operations, in any order, and by changes that other sources make in the receiver: a source
    -- with a fork proof, or with more than one fork, is blamed; a blamed source has a delivered
    -- height of 0; and the receiver has told of the source once more than when it was created if
    -- it is blamed, and no more often if it is not.
    pub SourceReached-IsSource :
        (s : ReceiverSource) (r : Receiver)
        → SourceReached start s r
        → IsSource id (times id start.blames) s r
    unfolding new
    SourceReached-IsSource s r created = record {
      named = refl;
      undelivered = λ e. refl;
      told = refl;
      proven = λ e. absurd cc;
      forked = λ l. absurd (omega arith);
    }
    SourceReached-IsSource _ _ (processes {s} {t} {r} {u} reached pointer e) =
        process-IsSource id (times id start.blames) store s pointer r
          (SourceReached-IsSource s r reached) (t, u) e
    SourceReached-IsSource _ _ (forks {s} {t} {r} {u} reached fork_id e) =
        add_fork-IsSource id (times id start.blames) s r (SourceReached-IsSource s r reached)
          (t, u, fork_id) e
    SourceReached-IsSource _ _ (blames {s} {t} {r} {u} reached fork height e) =
        blame-IsSource id (times id start.blames) s fork height r
          (SourceReached-IsSource s r reached) (t, u) e
    SourceReached-IsSource _ _ (proves {s} {r} reached proof) =
        proves-IsSource id (times id start.blames) s r proof (SourceReached-IsSource s r reached)
    SourceReached-IsSource _ _ (receives {s} {t} {r} reached fuel height e) =
        received-IsSource id (times id start.blames) store fuel s t height r
          (SourceReached-IsSource s r reached) e
    SourceReached-IsSource _ _ (delivers {s} {t} {r} reached fuel height e) =
        delivered-IsSource id (times id start.blames) store fuel s t height r
          (SourceReached-IsSource s r reached) e
    SourceReached-IsSource _ _ (marks {s} {r} reached) =
        let p = mark_as_blamed s r in
        let h = SourceReached-IsSource s r reached in
        marked-IsSource id (times id start.blames) s p
          (mark-IsMarked id (times id start.blames) s r (weaken id (times id start.blames) s r h))
    SourceReached-IsSource _ _ (others {s} {r} {u} reached e) =
        let h = SourceReached-IsSource s r reached in
        record {
          named = h.named;
          undelivered = h.undelivered;
          told = e ∙ h.told;
          proven = h.proven;
          forked = h.forked;
        }
