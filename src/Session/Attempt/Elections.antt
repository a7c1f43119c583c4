-- ===== src/Session/Attempt/Elections.antt =====
-- An attempt elects one block at most (round_attempt.rs), whatever messages come in whatever order.
use ton_labs_node.Base.{
  ℕ, ◌<◌, ◌≡◌, sym, ap, ◌∙◌, List, [], ◌∷◌, length, some, done, true, All, Bool-cases, inl, inr,
  arith, subst,
}
use ton_labs_node.Session.Description.{SessionDescription}
use ton_labs_node.Session.Description.Weights.{IsWeighed}
use ton_labs_node.Session.Description.Priority.{IsSized}
use ton_labs_node.Session.Merge.{Same}
use ton_labs_node.Session.SortedVector.{iter}
use ton_labs_node.Session.SortedVector.Order.{find, IsSorted, find-Above}
use ton_labs_node.Session.VoteCandidate.{VoteCandidate, get_id, check_block_is_voted}
use ton_labs_node.Session.VoteCandidate.Votes.{IsVote, voted_total}
use ton_labs_node.Session.SentBlock.{SentBlockPtr}
use ton_labs_node.Session.Message.{Message}
use ton_labs_node.Session.Attempt.{
  RoundAttempt, RoundView, create_empty, apply_action, first_voted, get_voted_block,
  check_attempt_is_precommitted,
}
use ton_labs_node.Session.Attempt.Moves.{Move, Answers, IsAttemptMessage, apply_action-Move}
use ton_labs_node.Session.Attempt.Votes.{
  Reached, begin, act, Reached-IsAttempt, Reached-unique, precommitted-voted,
}

-- The attempts that messages of known validators make of an empty one. At each message the round may
-- be another one, as long as it answers.
pub data Played (desc : SessionDescription) (vote_same : Same VoteCandidate)
    : RoundAttempt → Type 0 where
  start : (n : ℕ) → Played desc vote_same (create_empty desc n)
  play :
      {a b : RoundAttempt} (view : RoundView) (src attempt_id : ℕ) (message : Message)
      → src < length desc.sources
      → Answers desc view src attempt_id
      → IsAttemptMessage message
      → Played desc vote_same a
      → apply_action desc vote_same view src attempt_id a message ≡ done b
      → Played desc vote_same b

module _ (desc : SessionDescription) (weighed : IsWeighed desc) (sized : IsSized desc)
    (vote_same : Same VoteCandidate) where
  Played-Reached : {a : RoundAttempt} → Played desc vote_same a → Reached desc a
  Played-Reached (start n) = begin n
  Played-Reached (play {a} {b} view src attempt_id message known answers ok p e) =
      let r = Played-Reached p in
      let (c, q, move) =
        apply_action-Move desc weighed sized vote_same view src attempt_id known answers a
          (Reached-IsAttempt desc weighed sized r) message ok in
      act src known r (subst (Move desc src a) (let z : done c ≡ done b = sym q ∙ e in cc) move)

  -- The block that `get_voted_block` returns is that of a voted candidate.
  elected_candidate :
      (votes : List VoteCandidate) (b : SentBlockPtr)
      → IsSorted get_id votes
      → All (IsVote desc) votes
      → first_voted desc votes ≡ done (some b)
      → (v : VoteCandidate) × (find get_id (get_id v) votes ≡ some v)
        × (check_block_is_voted desc v ≡ done true)
        × (v.block ≡ b)
  unfolding first_voted find
  elected_candidate [] b s h e = absurd (cc e)
  elected_candidate (x ∷ votes) b s h e =
      let (t, q) = voted_total desc weighed x h.0 in
      elim (Bool-cases t) [
        | inl y ↦ (x, ground arith, ground arith, ground arith)
        | inr n ↦
            let (w, f, g, k) = elected_candidate votes b s.1 h.1 (ground arith) in
            (w, ground (arith, find-Above get_id (get_id x) (get_id w) w votes s.0 f), g, k)
      ]

  -- In a weighed and sized session, an attempt that messages of known validators have made of an
  -- empty one, and whose precommits reach the cutoff, has a voted block: the one that
  -- `get_voted_block` returns, which is the block of a candidate of the attempt whose votes reach
  -- the cutoff.
  pub precommits-elected :
      (a : RoundAttempt)
      → Played desc vote_same a
      → check_attempt_is_precommitted desc a ≡ done true
      → (v : VoteCandidate) × (find get_id (get_id v) (iter a.votes) ≡ some v)
        × (check_block_is_voted desc v ≡ done true)
        × (get_voted_block desc a ≡ done (some v.block))
  precommits-elected a p h =
      let inv = Reached-IsAttempt desc weighed sized (Played-Reached p) in
      let (b, e) = precommitted-voted desc weighed sized a inv h in
      let (v, f, g, k) = elected_candidate (iter a.votes) b inv.sorted inv.candidates e in
      (v, f, g, e ∙ ap (λ x. done (some x)) (sym k))

  -- In a weighed and sized session, two voted candidates of an attempt that messages of known
  -- validators have made of an empty one are one: their quorums share a validator, which has voted
  -- once. So an attempt elects at most one block, whatever the messages and their order, and
  -- whatever rounds answer it.
  pub voted_unique :
      (a : RoundAttempt)
      → Played desc vote_same a
      → (j k : ℕ) (v w : VoteCandidate) → find get_id j (iter a.votes) ≡ some v
      → find get_id k (iter a.votes) ≡ some w
      → check_block_is_voted desc v ≡ done true
      → check_block_is_voted desc w ≡ done true
      → j ≡ k
  voted_unique a p = Reached-unique desc weighed sized a (Played-Reached p)
