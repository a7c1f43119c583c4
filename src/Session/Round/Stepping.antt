-- ===== src/Session/Round/Stepping.antt =====
-- The actions on the attempts of a round keep its invariant (round.rs, `apply_action_on_attempt`).
use ton_labs_node.Base.{
  ℕ, suc, ◌<◌, ◌≡◌, refl, ap, ◌∙◌, Bool, true, false, not, List, [], ◌∷◌, length, map, ltb, ◌==◌,
  if◌then◌else◌, Option, none, some, All, done, arith, Bool-cases, Option-cases, inl, inr, subst,
  max,
}
use ton_labs_node.Session.Description.{SessionDescription}
use ton_labs_node.Session.Description.Weights.{IsWeighed}
use ton_labs_node.Session.Description.Priority.{IsSized}
use ton_labs_node.Session.Vector.{modify, wrapped_modify}
use ton_labs_node.Session.SortedVector.{iter}
use ton_labs_node.Session.SortedVector.Order.{find, find-All}
use ton_labs_node.Session.SentBlock
use ton_labs_node.Session.SentBlock.{SentBlockPtr}
use ton_labs_node.Session.Attempt.{RoundAttempt, create_empty}
use ton_labs_node.Session.Attempt.Invariant.{IsAttempt}
use ton_labs_node.Session.Attempt.Votes.{create_empty-IsAttempt}
use ton_labs_node.Session.Round.{RoundState}
use ton_labs_node.Session.Round.Actions.{RoundPool, max_of, attempt_or_new, other_block, released}
use ton_labs_node.Session.Round.Attempts.{number, get_attempt-find, VotedAt}
use ton_labs_node.Session.Round.Invariant.{IsConfigured, IsRound}

pub max_of-All : (P : ℕ → Type 0) (xs : List ℕ) → P 0 → All P xs → P (max_of xs)
unfolding max_of
max_of-All P [] z h = z
max_of-All P (x ∷ xs) z h =
    let rest = max_of-All P xs z h.1 in
    elim (Bool-cases (ltb x (max_of xs))) [
      | inl t ↦ let e : max_of xs ≡ max x (max_of xs) = ground arith in subst P e rest
      | inr t ↦ let e : x ≡ max x (max_of xs) = ground arith in subst P e h.0
    ]

map-All :
    (P : ℕ → Type 0) (f : ℕ → ℕ) (xs : List ℕ)
    → ((n : ℕ) → P n → P (f n))
    → All P xs
    → All P (map f xs)
map-All P f [] k h = tt
map-All P f (x ∷ xs) k h = (k x h.0, map-All P f xs k h.1)

pub weaken-All : (P Q : ℕ → Type 0) (xs : List ℕ) → ((n : ℕ) → P n → Q n) → All P xs → All Q xs
weaken-All P Q [] k h = tt
weaken-All P Q (x ∷ xs) k h = (k x h.0, weaken-All P Q xs k h.1)

length-map : (f : ℕ → ℕ) (xs : List ℕ) → length (map f xs) ≡ length xs
length-map f [] = refl
length-map f (x ∷ xs) = ap suc (length-map f xs)

-- A vector of attempt numbers with an entry for each validator, each of a voted attempt.
abbrev pub Lasts : SessionDescription → List RoundAttempt → Option (List ℕ) → Type 0
Lasts desc attempts o =
    (ys : List ℕ) × (o ≡ some ys)
    × (length ys ≡ length desc.sources)
    × All (VotedAt desc attempts) ys

module _ (desc : SessionDescription) (attempts : List RoundAttempt) where
  pub released-Lasts :
      (b : Bool) (attempt_id : ℕ) (o : Option (List ℕ))
      → Lasts desc attempts o
      → (s : RoundState) → Lasts desc attempts (released desc s b attempt_id o)
  unfolding released wrapped_modify modify
  released-Lasts false attempt_id o h s = h
  released-Lasts true attempt_id o (ys, e, l, all) s =
      let f : ℕ → ℕ = λ last. if ltb attempt_id last then last else 0 in
      (
        map f ys,
        rw e refl,
        length-map f ys ∙ l,
        map-All (VotedAt desc attempts) f ys
            (λ n v. elim (Bool-cases (ltb attempt_id n)) [
              | inl t ↦ rw t v
              | inr t ↦ rw t (inl refl)
            ])
            all,
      )

module _ (desc : SessionDescription) (weighed : IsWeighed desc) (sized : IsSized desc)
    (configured : IsConfigured desc) (pool : RoundPool) (state : RoundState)
    (inv : IsRound desc state) (src attempt_id : ℕ) (known : src < length desc.sources) where
  -- The attempt that an action applies to.
  pub attempt_or_new-lem :
      (a : RoundAttempt) × (attempt_or_new desc state attempt_id ≡ done a)
      × IsAttempt desc a
      × (a.sequence_number ≡ attempt_id)
      × ((b : RoundAttempt) → find number attempt_id (iter state.attempts) ≡ some b → b ≡ a)
  unfolding attempt_or_new
  attempt_or_new-lem = elim (Option-cases (find number attempt_id (iter state.attempts))) [
    | inl e ↦ (
      create_empty desc attempt_id,
      rw (get_attempt-find state.attempts attempt_id inv.attempts_sorted, e) refl,
      create_empty-IsAttempt desc weighed sized attempt_id,
      unfold create_empty in refl,
      λ b q. absurd (cc (e, q)),
    )
    | inr (a, e) ↦
        let (h, k) =
          find-All number (IsAttempt desc) attempt_id (iter state.attempts) a inv.attempts_kept e in
        (
          a,
          rw (get_attempt-find state.attempts attempt_id inv.attempts_sorted, e) refl,
          h,
          k,
          λ b q. cc (e, q),
        )
  ]

  -- The comparison with the block of the last precommits finds that block.
  pub other_block-total :
      (last : ℕ) (voted : Option SentBlockPtr)
      → VotedAt desc (iter state.attempts) last
      → (b : Bool) × (other_block desc state last voted ≡ done b)
  unfolding other_block
  other_block-total last none v = (false, refl)
  other_block-total last (some b) (inl z) = (false, rw z refl)
  other_block-total last (some b) (inr (a, f, (v, h))) = elim (Bool-cases (last == 0)) [
    | inl t ↦ (false, rw t refl)
    | inr t ↦ (
      not (SentBlock.get_id v == SentBlock.get_id b),
      rw (t, get_attempt-find state.attempts last inv.attempts_sorted, f) (rw h refl),
    )
  ]
