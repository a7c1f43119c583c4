-- ===== src/Session/State/Invariant.antt =====
-- The invariant of a session (session_state.rs): its current round is well formed, its attempts vote
-- for candidates of the round, it is not yet signed, and the old rounds are numbered in their order,
-- each with the signatures of a quorum for its block.
use ton_labs_node.Base.{
  ℕ, zero, suc, ◌≡◌, refl, ap, ◌∙◌, true, false, List, [], ◌∷◌, ◌++◌, length, replicate,
  length-replicate, set, get_elem?, get_elem?-some, get_elem?-lt, ltb, leb, u32, Option, none, some,
  is_some, Outcome, done, arith, Bool-cases, ◌⊎◌, ◌≤◌, inl, inr,
}
use ton_labs_node.Session.Description.{SessionDescription, Source}
use ton_labs_node.Session.Description.Weights.{IsWeighed, weigh-lem, weight_of}
use ton_labs_node.Session.Description.Priority.{IsSized}
use ton_labs_node.Session.Vector.{change, wrapped_at, wrapped_change, wrapped_push}
use ton_labs_node.Session.SortedVector.{iter}
use ton_labs_node.Session.BlockCandidate.{Signature}
use ton_labs_node.Session.Round.{create_current_round, check_block_is_signed}
use ton_labs_node.Session.Round.Invariant.{IsRound, create_current_round-IsRound}
use ton_labs_node.Session.Round.Sourced.{IsSourced}
use ton_labs_node.Session.OldRound.{OldRoundState}
use ton_labs_node.Session.OldRound.Invariant.{IsOldRound}
use ton_labs_node.Session.State.{SessionState, of_old_round, create_empty}

module _ (desc : SessionDescription) where
  pub record IsSession (state : SessionState) : Type 0 where
    pub times : length state.attempt_ids ≡ length desc.sources
    pub current : IsRound desc state.current_round
    pub sourced : IsSourced state.current_round
    pub unsigned : check_block_is_signed desc state.current_round ≡ done false
    pub ended : length (iter state.old_rounds) ≡ state.current_round.sequence_number
    pub olds :
        (i : ℕ) (old : OldRoundState)
        → get_elem? (iter state.old_rounds) i ≡ some old
        → IsOldRound desc i old

-- The old rounds of `s` are old rounds of `t`, for the same blocks.
abbrev pub Extends : SessionState → SessionState → Type 0
Extends s t =
    (i : ℕ) (old : OldRoundState)
    → get_elem? (iter s.old_rounds) i ≡ some old
    → (new : OldRoundState) × (get_elem? (iter t.old_rounds) i ≡ some new) × (new.block ≡ old.block)

pub Extends-refl : (s : SessionState) → Extends s s
Extends-refl s i old e = (old, e, refl)

pub Extends-trans : (s t u : SessionState) → Extends s t → Extends t u → Extends s u
Extends-trans s t u h k i old e =
    let (m, f, p) = h i old e in let (n, g, q) = k i m f in (n, g, q ∙ p)

-- A step that returns a session, for the same old blocks.
abbrev pub SessionSteps : SessionDescription → SessionState → Outcome SessionState → Type 0
SessionSteps desc s o = (t : SessionState) × (o ≡ done t) × IsSession desc t × Extends s t

-- The optional vector of old rounds as the list of its items.
pub wrapped_at-get {ℓ} :
    {A : Type ℓ} (v : Option (List A)) (i : ℕ) (a : A)
    → get_elem? (iter v) i ≡ some a
    → wrapped_at v i ≡ done a
wrapped_at-get none i a e = absurd (cc e)
wrapped_at-get (some xs) i a e = rw e refl

pub wrapped_change-set {ℓ} :
    {A : Type ℓ} (v : Option (List A)) (i : ℕ) (a b : A)
    → get_elem? (iter v) i ≡ some a
    → (w : Option (List A)) × (wrapped_change v i b ≡ done w) × (iter w ≡ set (iter v) i b)
unfolding wrapped_change change
wrapped_change-set none i a b e = absurd (cc e)
wrapped_change-set (some xs) i a b e =
    let l : leb i (length xs) ≡ true = ground (arith, get_elem?-lt xs i a e) in
    (some (set xs i b), rw (l, e) refl, refl)

pub wrapped_push-append {ℓ} :
    {A : Type ℓ} (v : Option (List A)) (a : A) → iter (wrapped_push v a) ≡ iter v ++ a ∷ []
unfolding wrapped_push
wrapped_push-append none a = refl
wrapped_push-append (some xs) a = refl

-- What is asked of an old round is answered when there is one with the number.
pub of_old_round-some {ℓ} :
    {A : Type ℓ} (field : OldRoundState → A) (state : SessionState) (i : ℕ) (old : OldRoundState)
    → get_elem? (iter state.old_rounds) i ≡ some old
    → of_old_round field state i ≡ done (some (field old))
unfolding of_old_round
of_old_round-some field state i old e =
    let l = get_elem?-lt (iter state.old_rounds) i old e in
    let t : ltb i (length (iter state.old_rounds)) ≡ true = ground arith in
    rw (t, wrapped_at-get state.old_rounds i old e) refl

pub of_old_round-cases {ℓ} :
    {A : Type ℓ} (field : OldRoundState → A) (state : SessionState) (i : ℕ)
    → ((of_old_round field state i ≡ done none) × (length (iter state.old_rounds) ≤ i))
      ⊎ ((old : OldRoundState) × (get_elem? (iter state.old_rounds) i ≡ some old)
          × (of_old_round field state i ≡ done (some (field old))))
unfolding of_old_round
of_old_round-cases field state i = elim (Bool-cases (ltb i (length (iter state.old_rounds)))) [
  | inr t ↦ inl (rw t refl, ground arith)
  | inl t ↦
      let (old, e) = get_elem?-some (iter state.old_rounds) i (ground arith) in
      inr (old, e, of_old_round-some field state i old e)
]

nothing_weighs :
    (sources : List Source) (n : ℕ)
    → weight_of {A = Option Signature} is_some sources (replicate n none) ≡ 0
nothing_weighs [] n = refl
nothing_weighs (s ∷ sources) zero = refl
nothing_weighs (s ∷ sources) (suc n) = omega (arith, nothing_weighs sources n)

module _ (desc : SessionDescription) (weighed : IsWeighed desc) (sized : IsSized desc) where
  -- A new round is not signed.
  pub create_current_round-unsigned :
      (n : ℕ) → check_block_is_signed desc (create_current_round desc n) ≡ done false
  unfolding check_block_is_signed create_current_round
  create_current_round-unsigned n =
      let m = u32 (length desc.sources) in
      let xs : List (Option Signature) = replicate m none in
      let z = nothing_weighs desc.sources m in
      let l : length xs ≡ length desc.sources = length-replicate m none ∙ omega arith in
      let f : leb desc.cutoff_weight (weight_of is_some desc.sources xs) ≡ false =
        ground (arith, weighed.cutoff) in
      weigh-lem is_some desc xs weighed (omega arith) ∙ ap done f

  -- A session begins with the invariant.
  pub create_empty-IsSession : IsSession desc (create_empty desc)
  unfolding create_empty create_current_round
  create_empty-IsSession = record {
    times = length-replicate (u32 (length desc.sources)) 0 ∙ omega arith;
    current = create_current_round-IsRound desc sized 0;
    sourced = tt;
    unsigned = create_current_round-unsigned 0;
    ended = refl;
    olds = λ i old e. absurd (cc e);
  }
