-- ===== src/Catchain/Graph.antt =====
-- The graph of received blocks: what the delivery of a block depends on.
pub mod Changes
pub mod Linking
pub mod Illness
pub mod Initializing
pub mod Delivering
pub mod Processing
use ton_labs_node.Base.{
  ℕ, zero, suc, ◌+◌, ◌-◌, ◌<◌, ◌≤◌, ◌≡◌, refl, sym, ap, ◌∙◌, subst, Bool, true, false, List, [],
  ◌∷◌, ◌++◌, ◌==◌, if◌then◌else◌, Option, none, some, Bool-cases, inl, inr, arith,
}
use ton_labs_node.Catchain.Times.{times, times-append}
use ton_labs_node.Catchain.Block.{
  ReceivedBlock, ReceivedBlockState, null, ill, initialized, delivered,
}
use ton_labs_node.Catchain.Delivery.{NewBlock, put}

-- The part of a block that the order of deliveries depends on.
pub record View : Type 0 where
  pub state : ReceivedBlockState
  pub links : List ℕ
  pub rev_deps : List ℕ
  pub pending : ℕ

abbrev pub links_of : Option ℕ → List ℕ → List ℕ
links_of none deps = deps
links_of (some prev) deps = prev ∷ deps

unfoldable pub view : ReceivedBlock → View
view block = record {
  state = block.state;
  links = links_of block.prev block.block_deps;
  rev_deps = block.rev_deps;
  pending = block.pending_deps;
}

abbrev pub delivered_state : ReceivedBlockState → Bool
delivered_state null = false
delivered_state ill = false
delivered_state initialized = false
delivered_state delivered = true

abbrev pub null_state : ReceivedBlockState → Bool
null_state null = true
null_state ill = false
null_state initialized = false
null_state delivered = false

abbrev pub ready_state : ReceivedBlockState → Bool
ready_state null = false
ready_state ill = false
ready_state initialized = true
ready_state delivered = false

abbrev pub arrived : View → Bool
arrived v = delivered_state v.state

abbrev pub waiting : (ℕ → View) → List ℕ → ℕ
waiting g [] = 0
waiting g (d ∷ deps) = (if arrived (g d) then 0 else 1) + waiting g deps

abbrev pub told_blocks : List NewBlock → List ℕ
told_blocks [] = []
told_blocks (notice ∷ notices) = notice.block ∷ told_blocks notices

-- The listener is told of a block after it has been told of all that the block depends on, and once
-- only. The root is known to it.
abbrev pub Causal : ℕ → List NewBlock → Type 0
Causal root [] = Unit
Causal root (notice ∷ notices) =
    ((d : ℕ)
      → 0 < times d (links_of notice.prev notice.deps)
      → 0 < times d (told_blocks notices ++ root ∷ []))
    × (times notice.block (told_blocks notices ++ root ∷ []) ≡ 0)
    × Causal root notices

-- The invariant of the graph. A block of `exempt` need not count what it waits for; the blocks of
-- `extra` have still to be told of a delivery.
pub record IsGraph (root : ℕ) (exempt extra : List ℕ) (g : ℕ → View) (notices : List NewBlock)
    : Type 0 where
  pub counted :
      (p : ℕ)
      → ready_state (g p).state ≡ true
      → times p exempt ≡ 0
      → waiting g (g p).links + times p extra ≤ (g p).pending
  pub linked : (p d : ℕ) → arrived (g d) ≡ false → times p (g d).rev_deps ≤ times d (g p).links
  pub closed : (p d : ℕ) → arrived (g p) ≡ true → 0 < times d (g p).links → arrived (g d) ≡ true
  pub blank : (p : ℕ) → null_state (g p).state ≡ true → (g p).links ≡ []
  pub told : (p : ℕ) → arrived (g p) ≡ true → 0 < times p (told_blocks notices ++ root ∷ [])
  pub known : (p : ℕ) → 0 < times p (told_blocks notices ++ root ∷ []) → arrived (g p) ≡ true
  pub causal : Causal root notices

pub waiting_none :
    (g : ℕ → View) (deps : List ℕ) (d : ℕ)
    → waiting g deps ≡ 0
    → 0 < times d deps
    → arrived (g d) ≡ true
waiting_none g [] d w t = absurd (omega arith)
waiting_none g (e ∷ deps) d w t = elim (Bool-cases (arrived (g e))) [
  | inr a ↦
      (let z : 1 + waiting g deps ≡ 0 =
          ap (λ b. (if b then 0 else 1) + waiting g deps) (sym a) ∙ w in
        absurd (omega arith))
  | inl a ↦
      let z : 0 + waiting g deps ≡ 0 =
        ap (λ b. (if b then 0 else 1) + waiting g deps) (sym a) ∙ w in
      elim (Bool-cases (e == d)) [
        | inl q ↦ (let s : e ≡ d = ground arith in subst (λ x. arrived (g x) ≡ true) s a)
        | inr q ↦
            let u : (if e == d then 1 else 0) + times d deps ≡ 0 + times d deps =
              ap (λ b. (if b then 1 else 0) + times d deps) q in
            waiting_none g deps d (omega arith) (omega (arith, u, t))
      ]
]

module _ (g : ℕ → View) (p : ℕ) (v : View) where
  put_here : put g p v p ≡ v
  unfolding put
  put_here = (let t : (p == p) ≡ true = ground arith in ap (λ b. if b then v else g p) t)

  put_there : (k : ℕ) → (k == p) ≡ false → put g p v k ≡ g k
  unfolding put
  put_there k t = ap (λ b. if b then v else g k) t

  -- A view of a changed graph is the new one, or the old one of another block.
  pub put_cases {ℓ} :
      (P : ℕ → View → Type ℓ)
      → P p v
      → ((k : ℕ) → (k == p) ≡ false → P k (g k))
      → (k : ℕ) → P k (put g p v k)
  put_cases P here there k = elim (Bool-cases (k == p)) [
    | inl t ↦
        let e : p ≡ k = ground arith in
        subst (λ x. P x (put g p v x)) e (subst (P p) (sym put_here) here)
    | inr t ↦ subst (P k) (sym (put_there k t)) (there k t)
  ]

  pub waiting_same :
      arrived v ≡ arrived (g p) → (deps : List ℕ) → waiting (put g p v) deps ≡ waiting g deps
  waiting_same same [] = refl
  waiting_same same (d ∷ deps) =
      let e : arrived (put g p v d) ≡ arrived (g d) =
        put_cases (λ k w. arrived w ≡ arrived (g k)) same (λ k t. refl) d in
      ap (λ b. (if b then 0 else 1) + waiting (put g p v) deps) e
      ∙ ap (λ n. (if arrived (g d) then 0 else 1) + n) (waiting_same same deps)

  -- When a block arrives, each wait for it ends.
  pub wait_ends :
      arrived (g p) ≡ false
      → arrived v ≡ true
      → (deps : List ℕ) → waiting (put g p v) deps + times p deps ≡ waiting g deps
  wait_ends before after [] = refl
  wait_ends before after (d ∷ deps) =
      let rest = wait_ends before after deps in
      let here : (if arrived (put g p v d) then 0 else 1) + (if d == p then 1 else 0)
          ≡ (if arrived (g d) then 0 else 1) =
        put_cases
          (λ k w.
            (if arrived w then 0 else 1) + (if k == p then 1 else 0)
            ≡ (if arrived (g k) then 0 else 1))
          (let t : (p == p) ≡ true = ground arith in rw (after, before, t) refl)
          (λ k t. rw t (omega arith)) d in
      omega (arith, rest, here)
