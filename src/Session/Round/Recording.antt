-- ===== src/Session/Round/Recording.antt =====
-- What an action on an attempt makes of the last precommits and of the locked block (round.rs,
-- `apply_action_on_attempt`).
use ton_labs_node.Base.{set-All}
use ton_labs_node.Base.{
  ℕ, zero, suc, ◌<◌, ◌≡◌, refl, sym, ap, ◌∙◌, Bool, true, not, ◌||◌, List, [], ◌∷◌, length, set,
  get_elem?, get_elem?-some, length-set, ltb, leb, Option, none, some, done, arith, Bool-cases, inl,
  inr, subst,
}
use ton_labs_node.Session.Description.{SessionDescription, weigh}
use ton_labs_node.Session.VoteCandidate.{voted}
use ton_labs_node.Session.Description.Weights.{IsWeighed, Passes, weigh-lem, weight_of}
use ton_labs_node.Session.Description.Priority.{IsSized}
use ton_labs_node.Session.Vector.{change, wrapped_change}
use ton_labs_node.Session.SortedVector.{iter}
use ton_labs_node.Session.SortedVector.Order.{find, find-insert, insert}
use ton_labs_node.Session.SentBlock.{SentBlockPtr}
use ton_labs_node.Session.Attempt.{RoundAttempt, get_voted_block, check_attempt_is_precommitted}
use ton_labs_node.Session.Attempt.Invariant.{IsAttempt}
use ton_labs_node.Session.Attempt.Votes.{precommitted-voted}
use ton_labs_node.Session.Round.{RoundState}
use ton_labs_node.Session.Round.Actions.{
  max_of, other_block, released, recorded, new_last_precommit, new_precommitted_block,
}
use ton_labs_node.Session.Round.Attempts.{number, VotedAt}
use ton_labs_node.Session.Round.Invariant.{LockedIn, IsRound}
use ton_labs_node.Session.Round.Stepping.{Lasts, released-Lasts}

flag-Passes : (xs : List Bool) (i : ℕ) → get_elem? xs i ≡ some true → Passes voted xs
flag-Passes [] i e = cc
flag-Passes (x ∷ xs) zero e = inl cc
flag-Passes (x ∷ xs) (suc i) e = inr (flag-Passes xs i e)

module _ (desc : SessionDescription) (weighed : IsWeighed desc) (sized : IsSized desc)
    (state : RoundState) (inv : IsRound desc state) (src attempt_id : ℕ)
    (known : src < length desc.sources) (b : RoundAttempt) (good : IsAttempt desc b)
    (numbered : b.sequence_number ≡ attempt_id) (o : Option SentBlockPtr)
    (elected : get_voted_block desc b ≡ done o) where
  -- The attempts with the new one.
  abbrev attempts_after : List RoundAttempt
  attempts_after = insert number b (iter state.attempts)

  is_there : find number attempt_id attempts_after ≡ some b
  is_there =
      ground (arith, find-insert number attempt_id b (iter state.attempts) inv.attempts_sorted)

  new_voted : (c : SentBlockPtr) → o ≡ some c → VotedAt desc attempts_after attempt_id
  new_voted c e = inr (b, is_there, (c, elected ∙ ap done e))

  backed_choice : get_elem? b.precommitted src ≡ some true → (c : SentBlockPtr) × (o ≡ some c)
  backed_choice f =
      let (c, h) = good.backed (flag-Passes b.precommitted src f) in
      (c, let q : done o ≡ done (some c) = sym elected ∙ h in cc)

  recorded-Lasts :
      (may : Bool) (c : SentBlockPtr)
      → o ≡ some c
      → (kept : Option (List ℕ)) → Lasts desc attempts_after kept
      → (l : Option (List ℕ)) × (recorded desc state may o src attempt_id kept ≡ done l)
        × Lasts desc attempts_after l
  unfolding recorded wrapped_change change
  recorded-Lasts may c e kept (ys, k, l, all) =
      let (own, f) = get_elem?-some ys src (omega arith) in
      let same : Lasts desc attempts_after kept = (ys, k, l, all) in
      elim (Bool-cases (ltb own attempt_id)) [
        | inr t ↦ (kept, rw (k, f, t) refl, same)
        | inl t ↦ elim (Bool-cases may) [
          | inr u ↦ (kept, rw (k, f, t, u) refl, same)
          | inl u ↦
              let bound : leb src (length ys) ≡ true = ground arith in
              (
                some (set ys src attempt_id),
                rw (k, f, t, u, e, bound) refl,
                (
                  set ys src attempt_id,
                  refl,
                  length-set ys src attempt_id ∙ l,
                  set-All (VotedAt desc attempts_after) ys src attempt_id (new_voted c e) all,
                ),
              )
        ]
      ]

  -- What the actions of a validator in an attempt make of the last precommits.
  pub new_last_precommit-Lasts :
      Lasts desc attempts_after state.last_precommit
      → (appears : Bool)
      → other_block desc state (max_of (iter state.last_precommit)) o ≡ done appears
      → (l : Option (List ℕ)) × (new_last_precommit desc state src attempt_id b o ≡ done l)
        × Lasts desc attempts_after l
  unfolding new_last_precommit
  new_last_precommit-Lasts lasts appears e =
      let kept = released desc state appears attempt_id state.last_precommit in
      let h =
        released-Lasts desc attempts_after appears attempt_id state.last_precommit lasts state in
      let (r, f) = get_elem?-some b.precommitted src (omega (arith, good.flags)) in
      elim (Bool-cases r) [
        | inr t ↦ (kept, rw (e, f, t) refl, h)
        | inl t ↦
            let (c, q) = backed_choice (f ∙ ap some t) in
            let may = ltb (max_of (iter state.last_precommit)) attempt_id || not appears in
            let (l, g, hl) = recorded-Lasts may c q kept h in (l, rw (e, f, t) g, hl)
      ]

  -- A block is locked only when it is the voted block of an attempt that is precommitted.
  pub new_precommitted_block-lem :
      (p : Option SentBlockPtr) × (new_precommitted_block desc state b o ≡ done p)
      × ((c : SentBlockPtr) → p ≡ some c → LockedIn desc attempts_after c)
  unfolding new_precommitted_block check_attempt_is_precommitted
  new_precommitted_block-lem =
      let q = leb desc.cutoff_weight (weight_of voted desc.sources b.precommitted) in
      let e : weigh voted desc b.precommitted ≡ done q =
        weigh-lem voted desc b.precommitted weighed (omega (arith, good.flags)) in
      elim (Bool-cases q) [
        | inr t ↦ (none, rw (e, t) refl, λ c z. absurd (cc z))
        | inl t ↦
            let (c, v) = precommitted-voted desc weighed sized b good (e ∙ ap done t) in
            let s : o ≡ some c = (let z : done o ≡ done (some c) = sym elected ∙ v in cc) in
            (
              o,
              rw (e, t) (rw s refl),
              λ x z. (
                b,
                subst (λ k. find number k attempts_after ≡ some b) (sym numbered) is_there,
                e ∙ ap done t,
                elected ∙ ap done z,
              ),
            )
      ]
