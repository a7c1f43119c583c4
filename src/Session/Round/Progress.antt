-- ===== src/Session/Round/Progress.antt =====
-- What a validator has left to do in an attempt of a round by itself (round.rs, `make_one_impl`).
use ton_labs_node.Base.{
  ℕ, ◌+◌, ◌≤◌, ◌<◌, ◌≡◌, refl, sym, ap, ◌∙◌, Bool, true, false, not, ◌||◌, List, length, ltb, leb,
  set, get_elem?-set_self, get_elem?-some, unwrap, ◌==◌, if◌then◌else◌, Option, some, is_some,
  Outcome, done, panic, Always, done-Always, bind-Always, if-Always, arith, Bool-cases, inl, inr,
  subst,
}
use ton_labs_node.Session.Description.{SessionDescription}
use ton_labs_node.Session.Description.Weights.{IsWeighed}
use ton_labs_node.Session.Description.Priority.{IsSized}
use ton_labs_node.Session.Vector.{wrapped_at, wrapped_change, change}
use ton_labs_node.Session.SortedVector.{iter}
use ton_labs_node.Session.SortedVector.Order.{insert, find-insert, insert-IsSorted}
use ton_labs_node.Session.SortedVector.Push.{push-eq-insert}
use ton_labs_node.Session.Attempt.{RoundAttempt, apply_default_action}
use ton_labs_node.Session.Attempt.Invariant.{IsAttempt}
use ton_labs_node.Session.Attempt.Moves.{apply_default_action-Moved}
use ton_labs_node.Session.Attempt.Progress.{
  attempt_left, attempt_left_small, apply_default_action-Nearer,
}
use ton_labs_node.Session.Round.{RoundState, round_view}
use ton_labs_node.Session.Round.Actions.{
  RoundPool, attempt_or_new, with_first_attempt, make_attempt, make_one,
}
use ton_labs_node.Session.Round.Attempts.{number, get_attempt-find, Move-number}
use ton_labs_node.Session.Round.Invariant.{IsConfigured, IsRound}
use ton_labs_node.Session.Round.Voting.{round_view-Answers}
use ton_labs_node.Session.Round.Stepping.{attempt_or_new-lem}
use ton_labs_node.Session.Round.Steps.{with_first_attempt-FlagsWell}

module _ (desc : SessionDescription) (src attempt_id : ℕ) where
  -- Is the first attempt of the validator still to be set?
  abbrev first_left : Outcome ℕ → ℕ
  first_left (done first) = if first == 0 || ltb attempt_id first then 1 else 0
  first_left panic = 0

  abbrev in_attempt : Outcome RoundAttempt → ℕ
  in_attempt (done attempt) = attempt_left src attempt
  in_attempt panic = 0

  -- The changes that the validator's own steps can still make in the attempt.
  abbrev pub round_left : RoundState → ℕ
  round_left state =
      first_left (wrapped_at state.first_attempt src)
      + in_attempt (attempt_or_new desc state attempt_id)

  first_left_small : (o : Outcome ℕ) → first_left o ≤ 1
  first_left_small (done first) = elim (Bool-cases (first == 0 || ltb attempt_id first)) [
    | inl t ↦ rw t (omega arith)
    | inr t ↦ rw t (omega arith)
  ]
  first_left_small panic = omega arith

  in_attempt_small : (o : Outcome RoundAttempt) → in_attempt o ≤ 2
  in_attempt_small (done attempt) = attempt_left_small src attempt
  in_attempt_small panic = omega arith

  pub round_left_small : (state : RoundState) → round_left state ≤ 3
  round_left_small state = omega (
    arith,
    first_left_small (wrapped_at state.first_attempt src),
    in_attempt_small (attempt_or_new desc state attempt_id),
  )

abbrev pub flag : Bool → ℕ
flag b = if b then 1 else 0

changed : (b : Bool) → not b ≡ false → flag b ≡ 1
changed true e = refl
changed false e = absurd (cc e)

module _ (desc : SessionDescription) (weighed : IsWeighed desc) (sized : IsSized desc)
    (configured : IsConfigured desc) (pool : RoundPool) (src attempt_id : ℕ)
    (known : src < length desc.sources) (positive : 0 < attempt_id) where
  module _ (state : RoundState) (inv : IsRound desc state) where
    abbrev left : RoundState → ℕ
    left = round_left desc src attempt_id

    firsts_set :
        (w : Option (List ℕ))
        → wrapped_change state.first_attempt src attempt_id ≡ done w
        → wrapped_at w src ≡ done attempt_id
    unfolding wrapped_change change
    firsts_set w q =
        let (xs, e, l) = inv.firsts in
        let (old, g) = get_elem?-some xs src (omega arith) in
        let b : leb src (length xs) ≡ true = ground arith in
        let z : some (set xs src attempt_id) ≡ w =
          (let y : done (some (set xs src attempt_id)) ≡ done w = rw (e, b, g) at q in cc) in
        ap (λ x. wrapped_at x src) (sym z)
        ∙ ap unwrap (get_elem?-set_self xs src attempt_id (omega arith))

    first-Nearer :
        Always
          (λ r. left r.0 + flag r.1 ≤ left state)
          (with_first_attempt desc state src attempt_id)
    unfolding with_first_attempt attempt_or_new
    first-Nearer =
        let P : RoundState × Bool → Type 0 = λ r. left r.0 + flag r.1 ≤ left state in
        bind-Always P (wrapped_at state.first_attempt src) (λ first f.
          if-Always P (first == 0 || ltb attempt_id first)
            (λ t. bind-Always P (wrapped_change state.first_attempt src attempt_id) (λ w q.
              done-Always P (record state { first_attempt = w }, true)
                (let old = ap (first_left desc src attempt_id) f ∙ ap flag t in
                  let new : first_left desc src attempt_id (wrapped_at w src) ≡ 0 =
                    ap (first_left desc src attempt_id) (firsts_set w q)
                    ∙ (let u : (attempt_id == 0 || ltb attempt_id attempt_id) ≡ false =
                          ground arith in
                        ap flag u) in
                  omega (arith, old, new))))
            (λ t. done-Always P (state, false) (omega arith)))

    -- The attempt that is acted on is well formed, and numbered by the action.
    acted_on :
        (a : RoundAttempt)
        → attempt_or_new desc state attempt_id ≡ done a
        → IsAttempt desc a × (number a ≡ attempt_id)
    acted_on a e =
        let (b, f, good, numbered, only) =
          attempt_or_new-lem desc weighed sized configured pool state inv src attempt_id known in
        let s : b ≡ a = (let y : done b ≡ done a = sym f ∙ e in cc) in
        subst (λ x. IsAttempt desc x × (number x ≡ attempt_id)) s (good, numbered)

    new_number :
        (a : RoundAttempt)
        → IsAttempt desc a
        → (r : RoundAttempt × Bool)
        → apply_default_action desc pool.vote (round_view desc state) src attempt_id a ≡ done r
        → number r.0 ≡ number a
    new_number a good r q =
        let (b, made, eb, move, _) =
          apply_default_action-Moved desc weighed sized pool.vote (round_view desc state) src
            attempt_id known
            (round_view-Answers desc weighed configured state inv src known attempt_id) a good in
        let s : (b, made) ≡ r = (let y : done (b, made) ≡ done r = sym eb ∙ q in cc) in
        subst (λ x. number x.0 ≡ number a) s (Move-number desc src move)

    found_after :
        (b : RoundAttempt)
        → number b ≡ attempt_id
        → attempt_or_new desc
            (record state { attempts = some (insert number b (iter state.attempts)) })
            attempt_id
          ≡ done b
    unfolding attempt_or_new
    found_after b e =
        let xs = iter state.attempts in
        let t : (number b == attempt_id) ≡ true = ground arith in
        rw
          (
            get_attempt-find (some (insert number b xs)) attempt_id
                (insert-IsSorted number b xs inv.attempts_sorted),
            find-insert number attempt_id b xs inv.attempts_sorted,
            t,
          )
          refl

    make_attempt-Nearer :
        (made : Bool)
        → Always
            (λ r. left r.0 + flag r.1 ≤ left state + flag made)
            (make_attempt desc pool src attempt_id state made)
    unfolding make_attempt
    make_attempt-Nearer made =
        let P : RoundState × Bool → Type 0 = λ r. left r.0 + flag r.1 ≤ left state + flag made in
        let stay = done-Always P (state, made) (omega arith) in
        if-Always P (is_some state.precommitted_block) (λ t. stay)
          (λ t. bind-Always P (attempt_or_new desc state attempt_id) (λ a e.
            let (good, numbered) = acted_on a e in
            bind-Always P
              (apply_default_action desc pool.vote (round_view desc state) src attempt_id a)
              (λ r q.
                if-Always P (not r.1) (λ u. stay)
                  (λ u.
                    rw (push-eq-insert number pool.attempt state.attempts r.0 inv.attempts_sorted) (
                      done-Always P _ (
                        let old = ap (in_attempt desc src attempt_id) e in
                        let new =
                          ap (in_attempt desc src attempt_id)
                            (found_after r.0 (new_number a good r q ∙ numbered)) in
                        let near =
                          apply_default_action-Nearer desc weighed sized pool.vote
                            (round_view desc state) src attempt_id known a good r q in
                        let f : flag r.1 ≡ 1 = changed r.1 u in
                        omega (arith, old, new, near, f)))))))

  -- A change that the node's own step makes leaves it less to do.
  pub make_one-Nearer :
      (state : RoundState)
      → IsRound desc state
      → Always
          (λ r.
            round_left desc src attempt_id r.0 + flag r.1 ≤ round_left desc src attempt_id state)
          (make_one desc pool src attempt_id state)
  unfolding make_one
  make_one-Nearer state inv =
      bind-Always
        (λ r. round_left desc src attempt_id r.0 + flag r.1 ≤ round_left desc src attempt_id state)
        (with_first_attempt desc state src attempt_id)
        (λ r e. λ u q.
          let (s, made, f, good, _) =
            with_first_attempt-FlagsWell desc weighed sized configured pool src attempt_id known
              state inv in
          let z : (s, made) ≡ r = (let y : done (s, made) ≡ done r = sym f ∙ e in cc) in
          let near = first-Nearer state inv r e in
          let next = make_attempt-Nearer r.0 (subst (λ x. IsRound desc x.0) z good) r.1 u q in
          omega (arith, near, next))
