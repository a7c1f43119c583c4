-- ===== src/Session/State/Steps.antt =====
-- Every message keeps the invariant of a session and the committed blocks (session_state.rs,
-- `apply_action`).
use ton_labs_node.Base.{
  ℕ, ◌+◌, ◌<◌, ◌≡◌, refl, sym, ap, ◌∙◌, Bool, true, false, List, [], ◌∷◌, length, length-append,
  set, get_elem?, get_elem?-some, get_elem?-append, get_elem?-last, get_elem?-set,
  get_elem?-set_self, get_elem?-set_ne, length-set, ltb, leb, ◌==◌, u32, some, is_some, done, arith,
  Bool-cases, inl, inr, subst,
}
use ton_labs_node.Session.Description.{SessionDescription}
use ton_labs_node.Session.Description.Weights.{IsWeighed, weigh-lem}
use ton_labs_node.Session.Description.Priority.{IsSized}
use ton_labs_node.Session.Vector.{change, wrapped_push}
use ton_labs_node.Session.SortedVector.{iter}
use ton_labs_node.Session.Message.{Message, get_round_id}
use ton_labs_node.Session.Round.{RoundState, create_current_round, check_block_is_signed}
use ton_labs_node.Session.Round.Actions.{RoundPool}
use ton_labs_node.Session.Round.Invariant.{IsConfigured, IsRound, create_current_round-IsRound}
use ton_labs_node.Session.Round.Steps.{apply_action-IsRound}
use ton_labs_node.Session.Round.Sourced.{IsSourced}
use ton_labs_node.Session.Round.Sourced.Handlers.{apply_action-Sourced_round}
use ton_labs_node.Session.OldRound.{OldRoundState}
use ton_labs_node.Session.OldRound.Invariant.{
  IsOldRound, apply_action-StaysCommitted, create_from_round-IsOldRound,
}
use ton_labs_node.Session.State.{
  SessionState, clamped, switched, switched_if_signed, apply_current, apply_old, apply_in_round,
  apply_action,
}
use ton_labs_node.Session.State.Invariant.{
  IsSession, Extends, Extends-refl, SessionSteps, wrapped_at-get, wrapped_change-set,
  wrapped_push-append, create_current_round-unsigned,
}

-- A round is signed or not.
pub signed_total :
    (desc : SessionDescription) (round : RoundState)
    → IsWeighed desc
    → IsRound desc round
    → (b : Bool) × (check_block_is_signed desc round ≡ done b)
unfolding check_block_is_signed
signed_total desc round weighed inv =
    (_, weigh-lem is_some desc round.signatures weighed (omega (arith, inv.signed)))

module _ (desc : SessionDescription) (weighed : IsWeighed desc) (sized : IsSized desc)
    (configured : IsConfigured desc) (state : SessionState) (inv : IsSession desc state)
    (round : RoundState) (good : IsRound desc round) (sourced : IsSourced round)
    (numbered : round.sequence_number ≡ state.current_round.sequence_number) where
  -- The session with another state of its current round.
  abbrev with_round : SessionState
  with_round = record state { current_round = round }

  same_round-IsSession : check_block_is_signed desc round ≡ done false → IsSession desc with_round
  same_round-IsSession unsigned = record {
    times = inv.times;
    current = good;
    sourced = sourced;
    unsigned = unsigned;
    ended = inv.ended ∙ sym numbered;
    olds = inv.olds;
  }

  -- The session after its round has been signed.
  module _ (old : OldRoundState) (committed : IsOldRound desc round.sequence_number old) where
    abbrev pub after_switch : SessionState
    after_switch = record state {
      current_round = create_current_round desc (u32 (round.sequence_number + 1));
      old_rounds = wrapped_push state.old_rounds old;
    }

    pub switched-IsSession :
        state.current_round.sequence_number + 1 < 4294967296 → IsSession desc after_switch
    switched-IsSession fits =
        let n = round.sequence_number in
        let pushed = wrapped_push-append state.old_rounds old in
        record {
          times = inv.times;
          current = create_current_round-IsRound desc sized (u32 (n + 1));
          sourced = unfold create_current_round in tt;
          unsigned = create_current_round-unsigned desc weighed sized (u32 (n + 1));
          ended =
              unfold create_current_round in
              (ap length pushed
                ∙ length-append (iter state.old_rounds) (old ∷ [])
                ∙ omega (arith, inv.ended));
          olds = λ i o e.
              elim (get_elem?-last (iter state.old_rounds) old i o
                (ap (λ xs. get_elem? xs i) (sym pushed) ∙ e)) [
                  | inl q ↦ inv.olds i o q
                  | inr (q, r) ↦
                      let k : n ≡ i = omega (arith, inv.ended) in
                      subst (IsOldRound desc i) r (subst (λ j. IsOldRound desc j old) k committed)
                ];
        }

    switched-Extends : Extends state after_switch
    switched-Extends i o e = (
      o,
      ap (λ xs. get_elem? xs i) (wrapped_push-append state.old_rounds old)
          ∙ get_elem?-append (iter state.old_rounds) (old ∷ []) i o e,
      refl,
    )

  switched-SessionSteps :
      state.current_round.sequence_number + 1 < 4294967296
      → SessionSteps desc state (switched_if_signed desc with_round)
  unfolding switched_if_signed switched
  switched-SessionSteps fits =
      let (signed, e) = signed_total desc round weighed good in
      elim (Bool-cases signed) [
        | inr t ↦
            (with_round, rw (e, t) refl, same_round-IsSession (e ∙ ap done t), Extends-refl state)
        | inl t ↦
            let (old, q, committed, _) =
              create_from_round-IsOldRound desc weighed configured round good sourced
                (e ∙ ap done t) in
            let c : (u32 (length (iter state.old_rounds)) == old.sequence_number) ≡ true =
              ground (arith, inv.ended, committed.numbered) in
            (
              after_switch old committed,
              rw (e, t, q, c) refl,
              switched-IsSession old committed fits,
              switched-Extends old committed,
            )
      ]

module _ (desc : SessionDescription) (weighed : IsWeighed desc) (sized : IsSized desc)
    (configured : IsConfigured desc) (pool : RoundPool) (src : ℕ)
    (known : src < length desc.sources) where
  module _ (state : SessionState) (inv : IsSession desc state) where
    apply_current-SessionSteps :
        state.current_round.sequence_number + 1 < 4294967296
        → (attempt_id : ℕ) (message : Message)
        → SessionSteps desc state (apply_current desc pool src state attempt_id message)
    unfolding apply_current
    apply_current-SessionSteps fits attempt_id message =
        let (t, e, good, n, _) =
          apply_action-IsRound desc weighed sized configured pool src attempt_id known
            state.current_round inv.current message in
        let from =
          apply_action-Sourced_round desc weighed sized configured pool src attempt_id known
            state.current_round inv.current inv.sourced message t e in
        rw e (switched-SessionSteps desc weighed sized configured state inv t good from n fits)

    apply_old-SessionSteps :
        (i : ℕ)
        → i < length (iter state.old_rounds)
        → (message : Message) → SessionSteps desc state (apply_old desc pool src state i message)
    unfolding apply_old
    apply_old-SessionSteps i l message =
        let (old, e) = get_elem?-some (iter state.old_rounds) i l in
        let (new, q, good, block) =
          apply_action-StaysCommitted desc weighed src known i old (inv.olds i old e) message in
        let (w, f, s) = wrapped_change-set state.old_rounds i old new e in
        (
          record state { old_rounds = w },
          rw (wrapped_at-get state.old_rounds i old e, q, f) refl,
          record {
            times = inv.times;
            current = inv.current;
            sourced = inv.sourced;
            unsigned = inv.unsigned;
            ended = ap length s ∙ length-set (iter state.old_rounds) i new ∙ inv.ended;
            olds = λ j o h.
                elim (get_elem?-set (iter state.old_rounds) i j new o
                  (ap (λ xs. get_elem? xs j) (sym s) ∙ h)) [
                    | inr r ↦ inv.olds j o r
                    | inl (k, r) ↦
                        subst (IsOldRound desc j) r (subst (λ x. IsOldRound desc x new) k good)
                  ];
          },
          λ j o h. elim (Bool-cases (i == j)) [
            | inr t ↦ (
              o,
              ap (λ xs. get_elem? xs j) s
                  ∙ get_elem?-set_ne (iter state.old_rounds) i j new (λ x. ground arith)
                  ∙ h,
              refl,
            )
            | inl t ↦
                let k : i ≡ j = ground arith in
                let z : old ≡ o =
                  (let y : some old ≡ some o =
                      sym e ∙ ap (λ x. get_elem? (iter state.old_rounds) x) k ∙ h in
                    cc) in
                (
                  new,
                  ap (λ xs. get_elem? xs j) s
                      ∙ subst (λ x. get_elem? (set (iter state.old_rounds) i new) x ≡ some new) k
                          (get_elem?-set_self (iter state.old_rounds) i new l),
                  block ∙ ap (λ x. x.block) z,
                )
          ],
        )

    apply_in_round-SessionSteps :
        state.current_round.sequence_number + 1 < 4294967296
        → (attempt_id i : ℕ) (message : Message)
        → SessionSteps desc state (apply_in_round desc pool src state attempt_id i message)
    unfolding apply_in_round
    apply_in_round-SessionSteps fits attempt_id i message =
        elim (Bool-cases (ltb state.current_round.sequence_number i)) [
          | inl t ↦ rw t (state, refl, inv, Extends-refl state)
          | inr t ↦ elim (Bool-cases (i == state.current_round.sequence_number)) [
            | inl u ↦ rw (t, u) (apply_current-SessionSteps fits attempt_id message)
            | inr u ↦ rw (t, u) (apply_old-SessionSteps i (ground (arith, inv.ended)) message)
          ]
        ]

  -- The session with another time of the validator.
  pub with_time-IsSession :
      (state : SessionState)
      → IsSession desc state
      → (time : ℕ) → IsSession desc (record state { attempt_ids = set state.attempt_ids src time })
  with_time-IsSession state inv time = record {
    times = length-set state.attempt_ids src time ∙ inv.times;
    current = inv.current;
    sourced = inv.sourced;
    unsigned = inv.unsigned;
    ended = inv.ended;
    olds = inv.olds;
  }

  pub change_time :
      (ids : List ℕ) (time : ℕ)
      → length ids ≡ length desc.sources
      → change ids src time ≡ done (set ids src time)
  unfolding change
  change_time ids time l =
      let (old, e) = get_elem?-some ids src (omega arith) in
      let b : leb src (length ids) ≡ true = ground arith in rw (b, e) refl

  -- In a weighed, sized and configured session with the invariant, while the number of the next
  -- round fits a `u32`, every message of a known validator, of any round and attempt, is handled
  -- without a panic: no assertion, index or unwrap fails, in particular the committed block is
  -- found among the candidates of its round. The result has the invariant (a well-formed current
  -- round that is not signed, as many old rounds as its number says, each with the signatures of a
  -- quorum for its block), and every old round keeps its block.
  pub apply_action-IsSession :
      (state : SessionState)
      → IsSession desc state
      → state.current_round.sequence_number + 1 < 4294967296
      → (attempt_id : ℕ) (message : Message)
      → SessionSteps desc state (apply_action desc pool src state attempt_id message)
  unfolding apply_action
  apply_action-IsSession state inv fits attempt_id message =
      let (current, e) = get_elem?-some state.attempt_ids src (omega (arith, inv.times)) in
      let time = clamped current attempt_id in
      rw (e, change_time state.attempt_ids time inv.times)
        (apply_in_round-SessionSteps (record state { attempt_ids = set state.attempt_ids src time })
          (with_time-IsSession state inv time) fits time (get_round_id message) message)
