-- ===== src/Session/Description/Weights.antt =====
-- Quorums: what the weighing loop decides, and that two quorums share more than a third of the
-- total weight (session_description.rs).
use ton_labs_node.Base.{
  ℕ, ◌+◌, ◌*◌, ◌/◌, ◌≤◌, ◌<◌, ◌≡◌, refl, Bool, true, ◌&&◌, List, [], ◌∷◌, leb, if◌then◌else◌, u64,
  length, done, arith, Bool-cases, map, ◌⊎◌, inl, inr, ◌∙◌, ap,
}
use ton_labs_node.Session.Description.{
  Source, SessionNode, SessionDescription, SessionOptions, Crypto, new, weigh_from, weigh,
  total_weight_from, source_of,
}

abbrev pub total_of : List Source → ℕ
total_of [] = 0
total_of (s ∷ ss) = s.weight + total_of ss

-- The weight behind the entries that pass a test: the specification of the loop.
abbrev pub weight_of {ℓ} : {A : Type ℓ} → (A → Bool) → List Source → List A → ℕ
weight_of test [] xs = 0
weight_of test (s ∷ ss) [] = 0
weight_of test (s ∷ ss) (x ∷ xs) = (if test x then s.weight else 0) + weight_of test ss xs

-- The weights as `new` computes them, when twice the total fits a `u64`.
pub record IsWeighed (desc : SessionDescription) : Type 0 where
  pub total : desc.total_weight ≡ total_of desc.sources
  pub cutoff : desc.cutoff_weight ≡ desc.total_weight * 2 / 3 + 1
  pub fits : desc.total_weight * 2 < 18446744073709551616

module _ {ℓ} {A : Type ℓ} (test : A → Bool) (cutoff : ℕ) where
  weigh_from-lem :
      (w : ℕ) (ss : List Source) (xs : List A)
      → length ss ≤ length xs
      → w + total_of ss < 18446744073709551616
      → w < cutoff
      → weigh_from test cutoff w ss xs ≡ done (leb cutoff (w + weight_of test ss xs))
  unfolding weigh_from
  weigh_from-lem w [] xs l f h = ground arith
  weigh_from-lem w (s ∷ ss) [] l f h = absurd (omega arith)
  weigh_from-lem w (s ∷ ss) (x ∷ xs) l f h = elim (Bool-cases (test x)) [
    | inl t ↦ rw t (ground (arith, weigh_from-lem (u64 (w + s.weight)) ss xs))
    | inr t ↦ rw t (ground (arith, weigh_from-lem w ss xs))
  ]

weight_of-le-total {ℓ} :
    {A : Type ℓ} (test : A → Bool) (ss : List Source) (xs : List A)
    → weight_of test ss xs ≤ total_of ss
weight_of-le-total test [] xs = omega arith
weight_of-le-total test (s ∷ ss) [] = omega arith
weight_of-le-total test (s ∷ ss) (x ∷ xs) = ground (arith, weight_of-le-total test ss xs)

-- In a weighed session, with an entry for each validator, the loop returns whether the entries
-- that pass carry the cutoff weight; it does not panic.
pub weigh-lem {ℓ} :
    {A : Type ℓ} (test : A → Bool) (desc : SessionDescription) (xs : List A)
    → IsWeighed desc
    → length desc.sources ≤ length xs
    → weigh test desc xs ≡ done (leb desc.cutoff_weight (weight_of test desc.sources xs))
unfolding weigh
weigh-lem test desc xs v l =
    weigh_from-lem test desc.cutoff_weight 0 desc.sources xs l (omega arith) (omega arith)
    ∙ ap (λ n. done (leb desc.cutoff_weight n)) (omega arith)

-- The weight behind the positions where both vectors pass.
abbrev pub weight_both {ℓ κ} :
    {A : Type ℓ} {B : Type κ} → (A → Bool) → (B → Bool) → List Source → List A → List B → ℕ
weight_both f g [] xs ys = 0
weight_both f g (s ∷ ss) [] ys = 0
weight_both f g (s ∷ ss) (x ∷ xs) [] = 0
weight_both f g (s ∷ ss) (x ∷ xs) (y ∷ ys) =
    (if f x && g y then s.weight else 0) + weight_both f g ss xs ys

module _ {ℓ κ} {A : Type ℓ} {B : Type κ} (f : A → Bool) (g : B → Bool) where
  both-le :
      (ss : List Source) (xs : List A) (ys : List B)
      → length ss ≤ length ys
      → weight_of f ss xs + weight_of g ss ys ≤ total_of ss + weight_both f g ss xs ys
  both-le [] xs ys l = omega arith
  both-le (s ∷ ss) [] ys l = omega (arith, weight_of-le-total g (s ∷ ss) ys)
  both-le (s ∷ ss) (x ∷ xs) [] l = absurd (omega arith)
  both-le (s ∷ ss) (x ∷ xs) (y ∷ ys) l = ground (arith, both-le ss xs ys)

  -- In a weighed session, two vectors with an entry for each validator that both reach the cutoff
  -- pass together for validators with more than a third of the total weight.
  pub quorums_overlap :
      (desc : SessionDescription) (xs : List A) (ys : List B)
      → IsWeighed desc
      → length desc.sources ≤ length xs
      → length desc.sources ≤ length ys
      → weigh f desc xs ≡ done true
      → weigh g desc ys ≡ done true
      → desc.total_weight < 3 * weight_both f g desc.sources xs ys
  quorums_overlap desc xs ys v lx ly hx hy =
      ground (arith, weigh-lem f desc xs v lx, weigh-lem g desc ys v ly, both-le desc.sources xs ys)

-- What passes more entries carries at least the weight.
abbrev pub PassesMore {ℓ κ} :
    {A : Type ℓ} {B : Type κ} → (A → Bool) → (B → Bool) → List A → List B → Type 0
PassesMore f g [] ys = Unit
PassesMore f g (x ∷ xs) [] = ⊥
PassesMore f g (x ∷ xs) (y ∷ ys) = (f x ≡ true → g y ≡ true) × PassesMore f g xs ys

module _ {ℓ κ} {A : Type ℓ} {B : Type κ} (f : A → Bool) (g : B → Bool) where
  weight_of_mono :
      (ss : List Source) (xs : List A) (ys : List B)
      → PassesMore f g xs ys
      → weight_of f ss xs ≤ weight_of g ss ys
  weight_of_mono [] xs ys h = omega arith
  weight_of_mono (s ∷ ss) [] ys h = omega arith
  weight_of_mono (s ∷ ss) (x ∷ xs) [] h = absurd h
  weight_of_mono (s ∷ ss) (x ∷ xs) (y ∷ ys) h = ground (arith, h.0, weight_of_mono ss xs ys h.1)

  -- A quorum is kept when more entries pass.
  pub weigh_mono :
      (desc : SessionDescription) (xs : List A) (ys : List B)
      → IsWeighed desc
      → length desc.sources ≤ length xs
      → length desc.sources ≤ length ys
      → PassesMore f g xs ys
      → weigh f desc xs ≡ done true
      → weigh g desc ys ≡ done true
  weigh_mono desc xs ys v lx ly h q = ground (
    arith,
    weigh-lem f desc xs v lx,
    weigh-lem g desc ys v ly,
    weight_of_mono desc.sources xs ys h,
  )

-- Whether some entry passes.
abbrev pub Passes {ℓ} : {A : Type ℓ} → (A → Bool) → List A → Type 0
Passes test [] = ⊥
Passes test (x ∷ xs) = (test x ≡ true) ⊎ Passes test xs

module _ {ℓ} {A : Type ℓ} (test : A → Bool) where
  weight_of-Passes : (ss : List Source) (xs : List A) → 0 < weight_of test ss xs → Passes test xs
  weight_of-Passes [] xs h = absurd (omega arith)
  weight_of-Passes (s ∷ ss) [] h = absurd (omega arith)
  weight_of-Passes (s ∷ ss) (x ∷ xs) h = elim (Bool-cases (test x)) [
    | inl t ↦ inl t
    | inr t ↦ inr (weight_of-Passes ss xs (ground arith))
  ]

  -- A quorum is not empty.
  pub weigh-Passes :
      (desc : SessionDescription) (xs : List A)
      → IsWeighed desc
      → length desc.sources ≤ length xs
      → weigh test desc xs ≡ done true
      → Passes test xs
  weigh-Passes desc xs v l q =
      weight_of-Passes desc.sources xs (ground (arith, weigh-lem test desc xs v l))

-- What the nodes weigh together.
abbrev node_total : List SessionNode → ℕ
node_total [] = 0
node_total (n ∷ ns) = n.weight + node_total ns

total_weight_from-lem :
    (t : ℕ) (nodes : List SessionNode)
    → t + node_total nodes < 18446744073709551616
    → total_weight_from t nodes ≡ t + node_total nodes
unfolding total_weight_from
total_weight_from-lem t [] h = omega arith
total_weight_from-lem t (n ∷ ns) h =
    omega (arith, total_weight_from-lem (u64 (t + n.weight)) ns (omega arith))

total_of-sources :
    (c : Crypto) (nodes : List SessionNode) → total_of (map (source_of c) nodes) ≡ node_total nodes
unfolding source_of
total_of-sources c [] = refl
total_of-sources c (n ∷ ns) = omega (arith, total_of-sources c ns)

-- A session description that `new` returns for nodes whose doubled weight fits a `u64` is weighed:
-- the total is that of the nodes, and the cutoff is two thirds of it, rounded down, plus one.
pub new-IsWeighed :
    (options : SessionOptions) (c : Crypto) (nodes : List SessionNode) (local_id : ℕ)
    (desc : SessionDescription)
    → node_total nodes * 2 < 18446744073709551616
    → new options c nodes local_id ≡ done desc
    → IsWeighed desc
unfolding new
new-IsWeighed options c nodes local_id desc f h =
    ground (arith, total_weight_from-lem 0 nodes, total_of-sources c nodes)
