-- ===== src/Session/State/Outcomes.antt =====
-- What any sequence of messages and of the node's own steps leaves of the committed blocks
-- (session_state.rs).
use ton_labs_node.Base.{
  ℕ, ◌+◌, ◌≤◌, ◌<◌, ◌≡◌, refl, sym, ap, ◌∙◌, Bool, true, List, length, get_elem?, get_elem?-some,
  get_elem?-lt, Option, none, some, is_some, done, arith, inl, inr, subst,
}
use ton_labs_node.Session.Description.{SessionDescription, weigh}
use ton_labs_node.Session.Description.Weights.{IsWeighed}
use ton_labs_node.Session.Description.Priority.{IsSized}
use ton_labs_node.Session.SortedVector.{iter}
use ton_labs_node.Session.SentBlock
use ton_labs_node.Session.SentBlock.{SentBlockPtr}
use ton_labs_node.Session.BlockCandidate.{Signature}
use ton_labs_node.Session.Message.{Message}
use ton_labs_node.Session.Round.Actions.{RoundPool, signature_accepted}
use ton_labs_node.Session.Round.Invariant.{IsConfigured}
use ton_labs_node.Session.State.{
  SessionState, apply_action, make_one, create_empty, get_committed_block,
  get_committed_block_signatures,
}
use ton_labs_node.Session.State.Invariant.{
  IsSession, Extends, Extends-refl, Extends-trans, of_old_round-some, of_old_round-cases,
  create_empty-IsSession,
}
use ton_labs_node.Session.State.Steps.{apply_action-IsSession}
use ton_labs_node.Session.State.Making.{make_one-Progress}

-- The sessions that come after `s`, by messages of known validators and the node's own steps, while
-- the number of the next round fits a `u32`.
pub data Follows (desc : SessionDescription) (pool : RoundPool) (s : SessionState)
    : SessionState → Type 0 where
  start : Follows desc pool s s
  message :
      {t u : SessionState} (src attempt_id : ℕ) (m : Message)
      → src < length desc.sources
      → t.current_round.sequence_number + 1 < 4294967296
      → Follows desc pool s t
      → apply_action desc pool src t attempt_id m ≡ done u
      → Follows desc pool s u
  alone :
      {t u : SessionState} {made : Bool} (src attempt_id : ℕ)
      → src < length desc.sources
      → Follows desc pool s t
      → make_one desc pool src t attempt_id ≡ done (u, made)
      → Follows desc pool s u

module _ (desc : SessionDescription) (weighed : IsWeighed desc) (sized : IsSized desc)
    (configured : IsConfigured desc) (pool : RoundPool) where
  pub Follows-Extends :
      {s t : SessionState}
      → Follows desc pool s t
      → IsSession desc s
      → IsSession desc t × Extends s t
  Follows-Extends {s} start inv = (inv, Extends-refl s)
  Follows-Extends {s} (message {t} {u} src attempt_id m known fits f e) inv =
      let (good, more) = Follows-Extends f inv in
      let (v, q, h, k) =
        apply_action-IsSession desc weighed sized configured pool src known t good fits attempt_id
          m in
      let z : v ≡ u = (let y : done v ≡ done u = sym q ∙ e in cc) in
      subst (λ x. IsSession desc x × Extends s x) z (h, Extends-trans s t v more k)
  Follows-Extends {s} (alone {t} {u} {made} src attempt_id known f e) inv =
      let (good, more) = Follows-Extends f inv in
      let (current, now) = get_elem?-some t.attempt_ids src (omega (arith, good.times)) in
      let (v, b, q, p) =
        make_one-Progress desc weighed sized configured pool src known t good attempt_id current
          now in
      let z : v ≡ u = (let y : done (v, b) ≡ done (u, made) = sym q ∙ e in cc) in
      subst (λ x. IsSession desc x × Extends s x) z
        (
          p.good,
          Extends-trans s t v more
              (λ i old h. (old, ap (λ x. get_elem? (iter x) i) p.kept ∙ h, refl)),
        )

  -- In a weighed, sized and configured session with the invariant, a block that is committed in a
  -- round stays the committed block of that round, whatever messages of known validators and own
  -- steps of the node follow, in any order, while the number of the next round fits a `u32`.
  pub get_committed_block-stays :
      (s t : SessionState)
      → IsSession desc s
      → Follows desc pool s t
      → (n : ℕ) (b : SentBlockPtr) → get_committed_block s n ≡ done (some b)
      → get_committed_block t n ≡ done (some b)
  get_committed_block-stays s t inv f n b e = elim (of_old_round-cases (λ old. old.block) s n) [
    | inl (q, l) ↦ absurd (let z : done none ≡ done (some b) = sym q ∙ e in cc)
    | inr (old, g, q) ↦
        let (good, more) = Follows-Extends f inv in
        let (new, h, same) = more n old g in
        let z : old.block ≡ b = (let y : done (some old.block) ≡ done (some b) = sym q ∙ e in cc) in
        of_old_round-some (λ old. old.block) t n new h ∙ ap (λ x. done (some x)) (same ∙ z)
  ]

  -- In a weighed, sized and configured session that messages of known validators and own steps of
  -- the node have made of an empty one, every round before the current one has a committed block
  -- with signatures that reach the cutoff, each of which verifies for that block, and no other
  -- round has a committed block.
  pub get_committed_block-signed :
      (t : SessionState)
      → Follows desc pool (create_empty desc) t
      → (n : ℕ)
      → (n < t.current_round.sequence_number
          → (b : SentBlockPtr) × (signatures : List (Option Signature)) × (get_committed_block t n
              ≡ done (some b))
            × (get_committed_block_signatures t n ≡ done (some signatures))
            × (weigh is_some desc signatures ≡ done true)
            × ((i : ℕ) (g : Signature)
                → get_elem? signatures i ≡ some (some g)
                → signature_accepted desc i b g (SentBlock.get_id b) ≡ done true))
        × (t.current_round.sequence_number ≤ n → get_committed_block t n ≡ done none)
  get_committed_block-signed t f n =
      let (inv, _) = Follows-Extends f (create_empty-IsSession desc weighed sized) in
      (
        λ l.
            let (old, e) = get_elem?-some (iter t.old_rounds) n (omega (arith, inv.ended)) in
            let h = inv.olds n old e in
            (
              old.block,
              old.signatures,
              of_old_round-some (λ o. o.block) t n old e,
              of_old_round-some (λ o. o.signatures) t n old e,
              h.quorum,
              h.verified,
            ),
        λ l. elim (of_old_round-cases (λ o. o.block) t n) [
          | inl (q, _) ↦ q
          | inr (old, e, _) ↦
              absurd (omega (arith, inv.ended, get_elem?-lt (iter t.old_rounds) n old e))
        ],
      )
