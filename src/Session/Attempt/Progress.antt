-- ===== src/Session/Attempt/Progress.antt =====
-- What a validator has left to do in an attempt: to vote and to precommit (round_attempt.rs,
-- `apply_default_action`).
use ton_labs_node.Base.{
  ℕ, ◌+◌, ◌≤◌, ◌<◌, ◌≡◌, refl, ap, ◌∙◌, Bool, true, false, List, [], ◌∷◌, length, at, get_elem?,
  get_elem?-some, get_elem?-set_self, ◌==◌, if◌then◌else◌, Option, none, some, All, Outcome, done,
  panic, Always, done-Always, bind-Always, if-Always, unwrap, arith, Bool-cases, inl, inr,
}
use ton_labs_node.Session.Description.{SessionDescription}
use ton_labs_node.Session.Description.Weights.{IsWeighed}
use ton_labs_node.Session.Description.Priority.{IsSized}
use ton_labs_node.Session.Merge.{Same}
use ton_labs_node.Session.SortedVector.{iter}
use ton_labs_node.Session.SortedVector.Order.{find, find-insert, insert}
use ton_labs_node.Session.SentBlock.{SentBlockPtr}
use ton_labs_node.Session.VoteCandidate.{VoteCandidate, get_id}
use ton_labs_node.Session.VoteCandidate.Votes.{IsVote}
use ton_labs_node.Session.Attempt.{
  RoundAttempt, RoundView, received_from, get_voted_block, record_vote, record_precommit, try_vote,
  try_precommit, apply_default_action, vote_candidate_of,
}
use ton_labs_node.Session.Attempt.Invariant.{IsAttempt, next_vote, vote_candidate-IsVote}
use ton_labs_node.Session.Attempt.Actions.{
  record_vote-lem, record_precommit-lem, with_precommit, with_block_vote-IsAttempt, with_block_vote,
}

-- 1 for what is still to be done, 0 for what is done.
abbrev pub left_of : Outcome Bool → ℕ
left_of (done true) = 0
left_of (done false) = 1
left_of panic = 1

-- Has the validator still to vote, to precommit?
abbrev pub attempt_left : ℕ → RoundAttempt → ℕ
attempt_left src attempt =
    left_of (received_from (iter attempt.votes) src) + left_of (at attempt.precommitted src)

left_of_small : (o : Outcome Bool) → left_of o ≤ 1
left_of_small (done true) = omega arith
left_of_small (done false) = omega arith
left_of_small panic = omega arith

pub attempt_left_small : (src : ℕ) (attempt : RoundAttempt) → attempt_left src attempt ≤ 2
attempt_left_small src attempt = omega (
  arith,
  left_of_small (received_from (iter attempt.votes) src),
  left_of_small (at attempt.precommitted src),
)

-- A vote in a list of votes is received.
found_received :
    (desc : SessionDescription) (src k : ℕ) (vote : VoteCandidate) (votes : List VoteCandidate)
    → src < length desc.sources
    → All (IsVote desc) votes
    → find get_id k votes ≡ some vote
    → get_elem? vote.voted_by src ≡ some true
    → received_from votes src ≡ done true
unfolding received_from find
found_received desc src k vote [] l h e f = absurd (cc e)
found_received desc src k vote (x ∷ votes) l h e f =
    let (b, q) = get_elem?-some x.voted_by src (omega (arith, h.0.flags)) in
    elim (Bool-cases (get_id x == k)) [
      | inl t ↦ let z : x ≡ vote = ground arith in rw (z, f) refl
      | inr t ↦
          let r = found_received desc src k vote votes l h.1 (ground arith) f in
          elim (Bool-cases b) [ inl u ↦ rw (q, u) refl | inr u ↦ rw (q, u) r ]
    ]

module _ (desc : SessionDescription) (weighed : IsWeighed desc) (sized : IsSized desc)
    (vote_same : Same VoteCandidate) (view : RoundView) (src attempt_id : ℕ)
    (known : src < length desc.sources) (attempt : RoundAttempt)
    (inv : IsAttempt desc attempt) where
  -- A change leaves less to do.
  abbrev Nearer : RoundAttempt × Bool → Type 0
  Nearer r = attempt_left src r.0 + (if r.1 then 1 else 0) ≤ attempt_left src attempt

  idle : Always Nearer (done (attempt, false))
  idle = done-Always Nearer (attempt, false) (omega arith)

  vote_received :
      (block : SentBlockPtr)
      → received_from (iter (with_block_vote desc src attempt block).votes) src ≡ done true
  vote_received block =
      let votes = iter attempt.votes in
      let c = vote_candidate_of desc votes block in
      let v = next_vote desc votes block src in
      let n : get_id v ≡ get_id v = refl in
      let same : (get_id v == get_id v) ≡ true = ground arith in
      found_received desc src (get_id v) v (insert get_id v votes) known
        (with_block_vote-IsAttempt desc weighed sized vote_same src known attempt inv
          block).candidates
        (rw (find-insert get_id (get_id v) v votes inv.sorted, same) refl)
        (get_elem?-set_self c.voted_by src true
          (omega (arith, (vote_candidate-IsVote desc sized votes inv.candidates block).0.flags)))

  record_vote-Nearer :
      (o : Option SentBlockPtr)
      → received_from (iter attempt.votes) src ≡ done false
      → Always Nearer (record_vote desc vote_same src attempt o)
  record_vote-Nearer none e = unfold record_vote in idle
  record_vote-Nearer (some block) e =
      rw (record_vote-lem desc weighed sized vote_same src known attempt inv block) (
        done-Always Nearer _
          (let p = ap left_of (vote_received block) in let q = ap left_of e in omega (arith, p, q)))

  try_vote-Nearer : Always Nearer (try_vote desc vote_same view src attempt_id attempt)
  unfolding try_vote
  try_vote-Nearer = bind-Always Nearer (received_from (iter attempt.votes) src) (λ received e.
      if-Always Nearer received (λ t. idle)
        (λ t.
          bind-Always Nearer (view.choose_block_to_vote src attempt_id attempt.vote_for)
            (λ o q. record_vote-Nearer o (e ∙ ap done t))))

  record_precommit-Nearer :
      (o : Option SentBlockPtr)
      → at attempt.precommitted src ≡ done false
      → Always Nearer (record_precommit src attempt o)
  record_precommit-Nearer none e = unfold record_precommit in idle
  record_precommit-Nearer (some block) e =
      let p = attempt.precommitted in
      let known_entry = get_elem?-set_self p src true (omega (arith, inv.flags)) in
      rw (record_precommit-lem desc weighed sized vote_same src known attempt inv (some block)) (
        done-Always Nearer (with_precommit src attempt, true)
          (let z = ap left_of e in
            let w = ap (λ x. left_of (unwrap x)) known_entry in omega (arith, z, w)))

  try_precommit-Nearer : Always Nearer (try_precommit desc vote_same view src attempt_id attempt)
  unfolding try_precommit
  try_precommit-Nearer = bind-Always Nearer (at attempt.precommitted src) (λ received e.
      if-Always Nearer received (λ t. idle)
        (λ t.
          bind-Always Nearer (get_voted_block desc attempt)
            (λ o q. record_precommit-Nearer o (e ∙ ap done t))))

  either : (p : RoundAttempt × Bool) → Nearer p → Nearer (if p.1 then p else (attempt, false))
  either (a, true) h = h
  either (a, false) h = omega arith

  pub apply_default_action-Nearer :
      Always Nearer (apply_default_action desc vote_same view src attempt_id attempt)
  unfolding apply_default_action
  apply_default_action-Nearer =
      bind-Always Nearer (try_vote desc vote_same view src attempt_id attempt) (λ vote e.
        if-Always Nearer vote.1 (λ t. done-Always Nearer vote (try_vote-Nearer vote e))
          (λ t.
            bind-Always Nearer (try_precommit desc vote_same view src attempt_id attempt)
              (λ p q. done-Always Nearer _ (either p (try_precommit-Nearer p q)))))
