-- ===== src/Session/State/Making.antt =====
-- The node's own steps in a session, and the loop that makes all of them (session_state.rs,
-- `make_one` and `make_all`).
use ton_labs_node.Base.{
  ℕ, zero, suc, ◌+◌, ◌≤◌, ◌<◌, ◌≡◌, refl, sym, ap, ◌∙◌, Bool, true, false, not, ◌&&◌, List, length,
  set, get_elem?, get_elem?-some, get_elem?-set_self, length-set, leb, if◌then◌else◌, some, is_some,
  done, arith, Bool-cases, inl, inr, subst,
}
use ton_labs_node.Session.Description.{SessionDescription, weigh}
use ton_labs_node.Session.Description.Weights.{IsWeighed}
use ton_labs_node.Session.Description.Priority.{IsSized}
use ton_labs_node.Session.Round.{RoundState, check_block_is_signed}
use ton_labs_node.Session.Round.Actions.{RoundPool}
use ton_labs_node.Session.Round.Invariant.{IsConfigured}
use ton_labs_node.Session.Round.Steps.{make_one-IsRound}
use ton_labs_node.Session.Round.Sourced.Handlers.{make_one-Own}
use ton_labs_node.Session.Round.Progress.{round_left, round_left_small, flag, make_one-Nearer}
use ton_labs_node.Session.State.{SessionState, clamped, updated_time, make_one, make_all}
use ton_labs_node.Session.State.Invariant.{IsSession}
use ton_labs_node.Session.State.Steps.{change_time}

clamped_positive : (current attempt_id : ℕ) → 0 < clamped current attempt_id
unfolding clamped
clamped_positive current attempt_id = ground arith

clamped_later : (current attempt_id : ℕ) → current ≤ clamped current attempt_id
unfolding clamped
clamped_later current attempt_id = ground arith

clamped_idem :
    (current attempt_id : ℕ)
    → clamped (clamped current attempt_id) attempt_id ≡ clamped current attempt_id
unfolding clamped
clamped_idem current attempt_id = ground arith

same_signatures :
    (desc : SessionDescription) (s t : RoundState)
    → t.signatures ≡ s.signatures
    → check_block_is_signed desc t ≡ check_block_is_signed desc s
unfolding check_block_is_signed
same_signatures desc s t e = ap (weigh is_some desc) e

module _ (desc : SessionDescription) (weighed : IsWeighed desc) (sized : IsSized desc)
    (configured : IsConfigured desc) (pool : RoundPool) (src : ℕ)
    (known : src < length desc.sources) where
  -- The changes that the node's own steps can still make at the time `time`.
  abbrev time_left : ℕ → ℕ → ℕ
  time_left time current = if leb time current then 0 else 1

  pub record Advances (state : SessionState) (attempt_id current : ℕ) (t : SessionState)
      (made : Bool) : Type 0 where
    pub good : IsSession desc t
    pub kept : t.old_rounds ≡ state.old_rounds
    pub number_kept : t.current_round.sequence_number ≡ state.current_round.sequence_number
    pub unmade : made ≡ false → t ≡ state
    pub time : made ≡ true → get_elem? t.attempt_ids src ≡ some (clamped current attempt_id)
    pub nearer :
        made ≡ true
        → round_left desc src (clamped current attempt_id) t.current_round
          < round_left desc src (clamped current attempt_id) state.current_round
            + time_left (clamped current attempt_id) current

  module _ (state : SessionState) (inv : IsSession desc state) (attempt_id current : ℕ)
      (now : get_elem? state.attempt_ids src ≡ some current) where
    clamped_id : ℕ
    clamped_id = clamped current attempt_id

    -- The time of the validator is brought forward, when it is behind.
    time_after : List ℕ
    time_after =
        if leb clamped_id current then state.attempt_ids else set state.attempt_ids src clamped_id

    updated :
        updated_time desc pool src state.attempt_ids current clamped_id
        ≡ done (time_after, not (leb clamped_id current))
    unfolding updated_time time_after
    updated = elim (Bool-cases (leb clamped_id current)) [
      | inl t ↦ rw t refl
      | inr t ↦
          rw
            (
              t,
              change_time desc weighed sized configured pool src known state.attempt_ids clamped_id
                  inv.times,
            )
            refl
    ]

    time_after-length : length time_after ≡ length desc.sources
    unfolding time_after
    time_after-length = elim (Bool-cases (leb clamped_id current)) [
      | inl t ↦ rw t inv.times
      | inr t ↦ rw t (length-set state.attempt_ids src clamped_id ∙ inv.times)
    ]

    time_after-get : get_elem? time_after src ≡ some clamped_id
    unfolding time_after clamped_id
    time_after-get = elim (Bool-cases (leb (clamped current attempt_id) current)) [
      | inl t ↦
          let l = clamped_later current attempt_id in
          let q : current ≡ clamped current attempt_id = ground arith in rw t (now ∙ ap some q)
      | inr t ↦ rw t (
          get_elem?-set_self state.attempt_ids src (clamped current attempt_id)
            (omega (arith, inv.times)))
    ]

    changes :
        (made : Bool)
        → (not made && not (not (leb clamped_id current))) ≡ false
        → 0 < flag made + time_left clamped_id current
    changes made e = ground arith

    -- The node's own step returns; a change brings the session nearer to the state in which there is
    -- nothing left to do, and no change leaves it as it is.
    pub make_one-Progress :
        (t : SessionState) × (made : Bool) × (make_one desc pool src state attempt_id
          ≡ done (t, made))
        × Advances state attempt_id current t made
    unfolding make_one clamped_id
    make_one-Progress =
        let c = clamped_id in
        let (r, made, e, good, _) =
          make_one-IsRound desc weighed sized configured pool src c known state.current_round
            inv.current in
        let (own, from) =
          make_one-Own desc weighed sized configured pool src c known state.current_round
            inv.current inv.sourced (r, made) e in
        let near =
          make_one-Nearer desc weighed sized configured pool src c known
            (clamped_positive current attempt_id) state.current_round inv.current (r, made) e in
        let unsigned =
          same_signatures desc state.current_round r own.signatures_same ∙ inv.unsigned in
        elim (Bool-cases (not made && not (not (leb c current)))) [
          | inl t ↦ (
            state,
            false,
            rw (now, updated, e, t) refl,
            record {
              good = inv;
              kept = refl;
              number_kept = refl;
              unmade = λ h. refl;
              time = λ h. absurd (cc h);
              nearer = λ h. absurd (cc h);
            },
          )
          | inr t ↦ (
            record state { attempt_ids = time_after; current_round = r },
            true,
            rw (now, updated, e, t, unsigned) refl,
            record {
              good = record {
                times = time_after-length;
                current = good;
                sourced = from;
                unsigned = unsigned;
                ended = inv.ended ∙ sym own.number_same;
                olds = inv.olds;
              };
              kept = refl;
              number_kept = own.number_same;
              unmade = λ h. absurd (cc h);
              time = λ h. time_after-get;
              nearer = λ h. omega (arith, near, changes made t);
            },
          )
        ]

  -- A session from which the node's own steps lead to one where there is nothing left to do.
  abbrev Settles : SessionState → ℕ → ℕ → Type 0
  Settles state attempt_id fuel =
      (t : SessionState) × (make_all desc pool src fuel state attempt_id ≡ done (some t))
      × IsSession desc t
      × (t.old_rounds ≡ state.old_rounds)
      × (make_one desc pool src t attempt_id ≡ done (t, false))

  settles :
      (fuel : ℕ) (state : SessionState)
      → IsSession desc state
      → (attempt_id current : ℕ) → get_elem? state.attempt_ids src ≡ some current
      → round_left desc src (clamped current attempt_id) state.current_round
          + time_left (clamped current attempt_id) current
        < fuel
      → Settles state attempt_id fuel
  unfolding make_all
  settles zero state inv attempt_id current now enough = absurd (omega arith)
  settles (suc fuel) state inv attempt_id current now enough =
      let c = clamped current attempt_id in
      let (t, made, e, p) = make_one-Progress state inv attempt_id current now in
      elim (Bool-cases made) [
        | inr f ↦ (
          t,
          rw (e, f) refl,
          p.good,
          p.kept,
          subst (λ s. make_one desc pool src s attempt_id ≡ done (s, false)) (sym (p.unmade f))
              (e ∙ ap (λ s. done (s, made)) (p.unmade f) ∙ ap (λ b. done (state, b)) f),
        )
        | inl f ↦
            let idem = clamped_idem current attempt_id in
            let near = p.nearer f in
            let l = ap (λ x. round_left desc src x t.current_round + time_left x c) idem in
            let z : time_left c c ≡ 0 = ground arith in
            let (u, q, good, kept, still) =
              settles fuel t p.good attempt_id c (p.time f) (omega (arith, near, l, z)) in
            (u, rw (e, f) q, good, kept ∙ p.kept, still)
      ]

  -- In a weighed, sized and configured session with the invariant, for a known validator, the loop
  -- of `make_all` ends after at most five steps, without a panic, for every attempt that it is
  -- asked for. The session that it returns has the invariant and the same old rounds, and a
  -- further step changes nothing in it.
  pub make_all-Settles :
      (state : SessionState)
      → IsSession desc state
      → (attempt_id fuel : ℕ) → 5 ≤ fuel
      → (t : SessionState) × (make_all desc pool src fuel state attempt_id ≡ done (some t))
        × IsSession desc t
        × (t.old_rounds ≡ state.old_rounds)
        × (make_one desc pool src t attempt_id ≡ done (t, false))
  make_all-Settles state inv attempt_id fuel enough =
      let (current, now) = get_elem?-some state.attempt_ids src (omega (arith, inv.times)) in
      let c = clamped current attempt_id in
      let small = round_left_small desc src c state.current_round in
      let time : time_left c current ≤ 1 = ground arith in
      settles fuel state inv attempt_id current now (omega (arith, small, time))
