-- ===== src/Session/Round/Outcomes.antt =====
-- The rounds that messages and the node's own steps make, and what their locked and signed blocks
-- are (round.rs).
use ton_labs_node.Base.{
  ℕ, suc, ◌<◌, ◌≡◌, refl, sym, ◌∙◌, Bool, true, List, [], ◌∷◌, length, get_elem?, Option, none,
  some, is_some, done, arith, inl, inr, subst,
}
use ton_labs_node.Session.Description.{SessionDescription}
use ton_labs_node.Session.Description.Weights.{IsWeighed}
use ton_labs_node.Session.Description.Priority.{IsSized}
use ton_labs_node.Session.SortedVector.{iter}
use ton_labs_node.Session.SentBlock.{SentBlockPtr}
use ton_labs_node.Session.Message.{Message}
use ton_labs_node.Session.Round.{RoundState, create_current_round}
use ton_labs_node.Session.Round.Actions.{RoundPool, signature_accepted, apply_action, make_one}
use ton_labs_node.Session.Round.Invariant.{
  IsConfigured, IsRound, LockedIn, create_current_round-IsRound,
}
use ton_labs_node.Session.Description.Weights.{Passes, weigh-Passes}
use ton_labs_node.Session.Round.{check_block_is_signed}
use ton_labs_node.Session.Round.Steps.{apply_action-IsRound, make_one-IsRound}
use ton_labs_node.Session.BlockCandidate.{Signature}
use ton_labs_node.Session.SentBlock

-- The rounds that the validators' messages and the node's own steps make of a new one.
pub data RoundReached (desc : SessionDescription) (pool : RoundPool) : RoundState → Type 0 where
  create : (n : ℕ) → RoundReached desc pool (create_current_round desc n)
  message :
      {s t : RoundState} (src attempt_id : ℕ) (m : Message)
      → src < length desc.sources
      → RoundReached desc pool s
      → apply_action desc pool src attempt_id s m ≡ done t
      → RoundReached desc pool t
  alone :
      {s t : RoundState} {made : Bool} (src attempt_id : ℕ)
      → src < length desc.sources
      → RoundReached desc pool s
      → make_one desc pool src attempt_id s ≡ done (t, made)
      → RoundReached desc pool t

module _ (desc : SessionDescription) (weighed : IsWeighed desc) (sized : IsSized desc)
    (configured : IsConfigured desc) (pool : RoundPool) where
  pub RoundReached-IsRound : {s : RoundState} → RoundReached desc pool s → IsRound desc s
  RoundReached-IsRound (create n) = create_current_round-IsRound desc sized n
  RoundReached-IsRound (message {s} {t} src attempt_id m known r e) =
      let h =
        apply_action-IsRound desc weighed sized configured pool src attempt_id known s
          (RoundReached-IsRound r) m in
      subst (IsRound desc) (let z : done h.0 ≡ done t = sym h.1 ∙ e in cc) h.2
  RoundReached-IsRound (alone {s} {t} {made} src attempt_id known r e) =
      let h =
        make_one-IsRound desc weighed sized configured pool src attempt_id known s
          (RoundReached-IsRound r) in
      subst (IsRound desc) (let z : done (h.0, h.1) ≡ done (t, made) = sym h.2 ∙ e in cc) h.3

pub Passes-signature :
    (xs : List (Option Signature))
    → Passes is_some xs
    → (i : ℕ) × (g : Signature) × (get_elem? xs i ≡ some (some g))
Passes-signature [] p = absurd p
Passes-signature (some g ∷ xs) (inl e) = (0, g, refl)
Passes-signature (none ∷ xs) (inl e) = absurd (cc e)
Passes-signature (x ∷ xs) (inr p) = let (i, g, e) = Passes-signature xs p in (suc i, g, e)

module _ (desc : SessionDescription) (weighed : IsWeighed desc) (sized : IsSized desc)
    (configured : IsConfigured desc) (pool : RoundPool) where
  -- In a weighed, sized and configured session, a round that messages and the node's own steps
  -- have made of a new one, and whose signatures reach the cutoff, has a locked block: some
  -- attempt has that block as its voted block and precommits that reach the cutoff. Every
  -- signature of the round is one that verifies for the locked block.
  pub signed-LockedIn :
      (s : RoundState)
      → RoundReached desc pool s
      → check_block_is_signed desc s ≡ done true
      → (b : SentBlockPtr) × (s.precommitted_block ≡ some b)
        × LockedIn desc (iter s.attempts) b
        × ((i : ℕ) (g : Signature)
            → get_elem? s.signatures i ≡ some (some g)
            → signature_accepted desc i b g (SentBlock.get_id b) ≡ done true)
  unfolding check_block_is_signed
  signed-LockedIn s r h =
      let inv = RoundReached-IsRound desc weighed sized configured pool r in
      let (i, g, e) =
        Passes-signature s.signatures
          (weigh-Passes is_some desc s.signatures weighed (omega (arith, inv.signed)) h) in
      let (b, q, v) = inv.verified i g e in
      (
        b,
        q,
        inv.locked b q,
        λ j f k.
            let (c, p, w) = inv.verified j f k in
            let z : c ≡ b = (let y : some c ≡ some b = sym p ∙ q in cc) in
            subst (λ x. signature_accepted desc j x f (SentBlock.get_id x) ≡ done true) z w,
      )
