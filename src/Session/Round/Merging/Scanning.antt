-- ===== src/Session/Round/Merging/Scanning.antt =====
-- What the merge of two rounds locks: the search for the newest precommitted attempt (round.rs,
-- `impl Merge`), and the merge of first attempts.
use ton_labs_node.Base.{
  ℕ, ◌≡◌, refl, ap, ◌∙◌, Bool, true, false, List, [], ◌∷◌, ◌++◌, leb, ◌==◌, Option, none, some, All,
  done, ◌>>=◌, arith, Bool-cases, inl, inr,
}
use ton_labs_node.Session.Description.{SessionDescription}
use ton_labs_node.Session.Description.Weights.{IsWeighed, weigh-lem, weight_of}
use ton_labs_node.Session.Description.Priority.{IsSized}
use ton_labs_node.Session.SortedVector.{iter}
use ton_labs_node.Session.SentBlock.{SentBlockPtr}
use ton_labs_node.Session.VoteCandidate.{voted}
use ton_labs_node.Session.Attempt.{RoundAttempt, get_voted_block, check_attempt_is_precommitted}
use ton_labs_node.Session.Attempt.Invariant.{IsAttempt, first_voted_total}
use ton_labs_node.Session.Attempt.Votes.{precommitted-voted}
use ton_labs_node.Session.Round.Merging.{Diversed, note_voted, voted_or_none, scan, merge_first}

-- The merge of first attempts does not depend on the order, the grouping or the repetition of merges.
pub merge_first_semilattice :
    (a b c : ℕ)
    → (merge_first a b ≡ merge_first b a)
      × ((merge_first a b >>= λ m. merge_first m c) ≡ (merge_first b c >>= λ m. merge_first a m))
      × (merge_first a a ≡ done a)
unfolding merge_first
merge_first_semilattice a b c = (ground arith, ground arith, ground arith)

module _ (desc : SessionDescription) where
  -- The block of the first attempt of the list whose precommits reach the cutoff.
  abbrev pub FirstLocked : List RoundAttempt → Option SentBlockPtr → Type 0
  FirstLocked attempts none = All (λ a. check_attempt_is_precommitted desc a ≡ done false) attempts
  FirstLocked attempts (some b) =
      (newer : List RoundAttempt) × (a : RoundAttempt) × (older : List RoundAttempt) × (attempts
        ≡ newer ++ a ∷ older)
      × All (λ x. check_attempt_is_precommitted desc x ≡ done false) newer
      × (check_attempt_is_precommitted desc a ≡ done true)
      × (get_voted_block desc a ≡ done (some b))

  -- One more attempt in front that is not precommitted.
  passes_over :
      (a : RoundAttempt) (attempts : List RoundAttempt) (o : Option SentBlockPtr)
      → check_attempt_is_precommitted desc a ≡ done false
      → FirstLocked attempts o
      → FirstLocked (a ∷ attempts) o
  passes_over a attempts none e h = (e, h)
  passes_over a attempts (some b) e (newer, x, older, q, all, p, v) =
      (a ∷ newer, x, older, ap (λ r. a ∷ r) q, (e, all), p, v)

  module _ (weighed : IsWeighed desc) (sized : IsSized desc) where
    voted_or_none_total :
        (d : Diversed) (a : RoundAttempt)
        → IsAttempt desc a
        → (o : Option SentBlockPtr) × (voted_or_none desc d a ≡ done o)
    unfolding voted_or_none
    voted_or_none_total d a h =
        let (o, e) = first_voted_total desc weighed (iter a.votes) h.candidates in
        elim (Bool-cases (leb d.count 1)) [ inl t ↦ (o, rw t e) | inr t ↦ (none, rw t refl) ]

    precommitted_total :
        (a : RoundAttempt)
        → IsAttempt desc a
        → (b : Bool) × (check_attempt_is_precommitted desc a ≡ done b)
    unfolding check_attempt_is_precommitted
    precommitted_total a h = (
      leb desc.cutoff_weight (weight_of voted desc.sources a.precommitted),
      weigh-lem voted desc a.precommitted weighed (omega (arith, h.flags)),
    )

    -- A block that is locked before the search stays locked.
    scan-locked :
        (attempts : List RoundAttempt)
        → All (IsAttempt desc) attempts
        → (d : Diversed) (b : SentBlockPtr)
        → (e : Diversed) × (scan desc d (some b) attempts ≡ done (e, some b))
    unfolding scan
    scan-locked [] h d b = (d, refl)
    scan-locked (a ∷ attempts) h d b =
        let (o, e) = voted_or_none_total d a h.0 in
        let next = note_voted d a.sequence_number o in
        let (f, q) = scan-locked attempts h.1 next b in
        elim (Bool-cases (next.count == 2)) [
          | inl t ↦ (next, rw (e, t) refl)
          | inr t ↦ (f, rw (e, t) q)
        ]

    -- In a weighed and sized session the search over attempts with the invariant, the newest first
    -- and with no block locked before, does not panic. It locks the voted block of the first
    -- attempt whose precommits reach the cutoff, and nothing when there is no such attempt.
    pub scan-FirstLocked :
        (attempts : List RoundAttempt)
        → All (IsAttempt desc) attempts
        → (d : Diversed)
        → (e : Diversed) × (o : Option SentBlockPtr) × (scan desc d none attempts ≡ done (e, o))
          × FirstLocked attempts o
    unfolding scan
    scan-FirstLocked [] h d = (d, none, refl, tt)
    scan-FirstLocked (a ∷ attempts) h d =
        let (v, ev) = voted_or_none_total d a h.0 in
        let next = note_voted d a.sequence_number v in
        let (p, ep) = precommitted_total a h.0 in
        elim (Bool-cases p) [
          | inr t ↦
              let (e, o, q, l) = scan-FirstLocked attempts h.1 next in
              (e, o, rw (ev, ep, t) q, passes_over a attempts o (ep ∙ ap done t) l)
          | inl t ↦
              let (b, eb) = precommitted-voted desc weighed sized a h.0 (ep ∙ ap done t) in
              let (f, q) = scan-locked attempts h.1 next b in
              let found : FirstLocked (a ∷ attempts) (some b) =
                ([], a, attempts, refl, tt, ep ∙ ap done t, eb) in
              elim (Bool-cases (next.count == 2)) [
                | inl u ↦ (next, some b, rw (ev, ep, t) (rw eb (rw u refl)), found)
                | inr u ↦ (f, some b, rw (ev, ep, t) (rw eb (rw u q)), found)
              ]
        ]
