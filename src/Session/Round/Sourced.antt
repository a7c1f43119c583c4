-- ===== src/Session/Round/Sourced.antt =====
-- Where the blocks of a round come from: the attempts of a round vote for and propose only blocks
-- that are among its candidates, so that a locked block is one of them (round.rs).
pub mod Handlers
use ton_labs_node.Base.{
  ℕ, ◌<◌, ◌≡◌, refl, sym, ap, ◌∙◌, Bool, true, false, List, [], ◌∷◌, length, ltb, ◌==◌, Option,
  none, some, is_some, All, Outcome, done, ◌>>=◌, Always, done-Always, bind-Always, if-Always,
  assert, unwrap, Bool-cases, Option-cases, arith, inl, inr, subst,
}
use ton_labs_node.Session.Description.{SessionDescription}
use ton_labs_node.Session.Description.Weights.{IsWeighed}
use ton_labs_node.Session.SortedVector.{iter}
use ton_labs_node.Session.SortedVector.Order.{
  find, find_at, find-All, find-insert, insert, IsSorted,
}
use ton_labs_node.Session.SentBlock
use ton_labs_node.Session.SentBlock.{SentBlockPtr}
use ton_labs_node.Session.BlockCandidate
use ton_labs_node.Session.BlockCandidate.{BlockCandidate}
use ton_labs_node.Session.VoteCandidate.{VoteCandidate}
use ton_labs_node.Session.Attempt.{RoundAttempt, create_empty, get_voted_block, first_voted}
use ton_labs_node.Session.Attempt.Sourced.{Sourced, SourcedBlock, first_voted-Sourced}
use ton_labs_node.Session.Round.{
  RoundState, get_attempt, get_block, last_precommit_block, newest_voted, best_block, fast_choice,
  unlocked_choice, choose_block_to_vote, slow_mode, candidate_in, get_first_attempt,
  get_last_precommit,
}
use ton_labs_node.Session.Round.Attempts.{number, get_attempt-find}
use ton_labs_node.Session.Round.Invariant.{IsConfigured, IsRoundCandidate, IsRound, LockedIn}
use ton_labs_node.Session.Round.Voting.{candidate_in-find}
use ton_labs_node.Session.Round.Choosing.{best_block-least}

-- The block is that of a candidate in the list.
abbrev pub Candidate : List BlockCandidate → SentBlockPtr → Type 0
Candidate candidates block =
    (c : BlockCandidate) × (find BlockCandidate.get_id (SentBlock.get_id block) candidates ≡ some c)

-- Every block that an attempt of the round votes for or proposes is one of its candidates.
abbrev pub IsSourced : RoundState → Type 0
IsSourced state = All (Sourced (Candidate (iter state.sent_blocks))) (iter state.attempts)

-- Candidates stay candidates when another one is inserted.
pub insert-Candidate :
    (candidates : List BlockCandidate) (v : BlockCandidate)
    → IsSorted BlockCandidate.get_id candidates
    → (block : SentBlockPtr) → Candidate candidates block
    → Candidate (insert BlockCandidate.get_id v candidates) block
insert-Candidate candidates v sorted block (c, e) =
    let id = SentBlock.get_id block in
    elim (Bool-cases (BlockCandidate.get_id v == id)) [
      | inl t ↦ (v, rw (find-insert BlockCandidate.get_id id v candidates sorted, t) refl)
      | inr t ↦ (c, rw (find-insert BlockCandidate.get_id id v candidates sorted, t) e)
    ]

module _ {κ} (P Q : SentBlockPtr → Type κ) (more : (b : SentBlockPtr) → P b → Q b) where
  more_votes :
      (votes : List VoteCandidate)
      → All (λ vote. P vote.block) votes
      → All (λ vote. Q vote.block) votes
  more_votes [] h = tt
  more_votes (vote ∷ votes) h = (more vote.block h.0, more_votes votes h.1)

  pub Sourced-mono :
      (attempts : List RoundAttempt) → All (Sourced P) attempts → All (Sourced Q) attempts
  Sourced-mono [] h = tt
  Sourced-mono (a ∷ attempts) h = (
    record {
      votes = more_votes (iter a.votes) h.0.votes;
      proposal = λ b e. more b (h.0.proposal b e);
    },
    Sourced-mono attempts h.1,
  )

-- The answers of a round are its candidates' blocks.
module _ (desc : SessionDescription) (weighed : IsWeighed desc) (configured : IsConfigured desc)
    (state : RoundState) (inv : IsRound desc state) (sourced : IsSourced state) (src : ℕ)
    (known : src < length desc.sources) where
  abbrev Known : SentBlockPtr → Type 0
  Known = Candidate (iter state.sent_blocks)

  newest_voted-Sourced :
      (attempts : List RoundAttempt)
      → All (Sourced Known) attempts
      → Always (SourcedBlock Known) (newest_voted desc attempts)
  unfolding newest_voted
  newest_voted-Sourced [] h = done-Always (SourcedBlock Known) none (λ b e. absurd (cc e))
  newest_voted-Sourced (a ∷ attempts) h =
      bind-Always (SourcedBlock Known) (newest_voted desc attempts) (λ newer e.
        if-Always (SourcedBlock Known) (is_some newer)
          (λ t. done-Always (SourcedBlock Known) newer (newest_voted-Sourced attempts h.1 newer e))
          (λ t. first_voted-Sourced Known desc (iter a.votes) h.0.votes))

  best_block-Sourced :
      Always (SourcedBlock Known) (best_block desc state.sequence_number (iter state.sent_blocks))
  best_block-Sourced o e b q =
      let (p, f, h) =
        best_block-least desc state.sequence_number weighed configured (iter state.sent_blocks)
          inv.blocks in
      let z : p ≡ o = (let y : done p ≡ done o = sym f ∙ e in cc) in
      elim h [
        | inl (n, k) ↦ absurd (cc (n, z, q))
        | inr (r, (i, c, g, el, k), nb) ↦
            let s : c.block ≡ b = (let y : some c.block ≡ some b = sym k ∙ z ∙ q in cc) in
            (
              c,
              subst
                  (λ x.
                    find BlockCandidate.get_id (SentBlock.get_id x) (iter state.sent_blocks)
                    ≡ some c)
                  s
                  (find_at BlockCandidate.get_id i c (iter state.sent_blocks) inv.blocks_sorted g),
            )
      ]

  last_precommit-Sourced :
      (last : ℕ) → Always (SourcedBlock Known) (last_precommit_block desc state.attempts last)
  unfolding last_precommit_block
  last_precommit-Sourced last =
      let P = SourcedBlock Known in
      bind-Always P (get_attempt state.attempts last) (λ found e.
        bind-Always P (unwrap found) (λ attempt q.
          bind-Always P (get_voted_block desc attempt) (λ block f.
            bind-Always P (assert (is_some block)) (λ u g. done-Always P block (
              first_voted-Sourced Known desc (iter attempt.votes)
                (find-All number (Sourced Known) last (iter state.attempts) attempt sourced
                  (there found attempt e q)).0.votes
                block f)))))
    where
      there :
          (found : Option RoundAttempt) (attempt : RoundAttempt)
          → get_attempt state.attempts last ≡ done found
          → unwrap found ≡ done attempt
          → find number last (iter state.attempts) ≡ some attempt
      there none attempt e q = absurd (cc q)
      there (some a) attempt e q =
          let z = sym (get_attempt-find state.attempts last inv.attempts_sorted) ∙ e in cc (z, q)

  pub choose_block_to_vote-Sourced :
      (attempt_id : ℕ) (vote_for : Option SentBlockPtr)
      → SourcedBlock Known vote_for
      → Always (SourcedBlock Known) (choose_block_to_vote desc state src attempt_id vote_for)
  unfolding choose_block_to_vote unlocked_choice fast_choice
  choose_block_to_vote-Sourced attempt_id vote_for h =
      let P = SourcedBlock Known in
      if-Always P (is_some state.sent_blocks)
        (λ t. bind-Always P (get_last_precommit state src) (λ last e.
          if-Always P (ltb 0 last) (λ u. last_precommit-Sourced last)
            (λ u. bind-Always P (get_first_attempt state src) (λ first f.
              if-Always P (slow_mode desc first attempt_id) (λ s. done-Always P vote_for h)
                (λ s. bind-Always P (newest_voted desc (iter state.attempts)) (λ voted g.
                  if-Always P (is_some voted)
                    (λ v.
                      done-Always P voted
                        (newest_voted-Sourced (iter state.attempts) sourced voted g))
                    (λ v. best_block-Sourced)))))))
        (λ t. done-Always P none (λ b e. absurd (cc e)))

  pub held_block-Sourced :
      (id : ℕ) (candidate : BlockCandidate)
      → get_block state id ≡ some candidate
      → Known candidate.block
  held_block-Sourced id candidate e =
      let f = sym (candidate_in-find (iter state.sent_blocks) id) ∙ e in
      let (h, k) =
        find-All BlockCandidate.get_id (IsRoundCandidate desc state.sequence_number) id
          (iter state.sent_blocks) candidate inv.blocks f in
      (
        candidate,
        subst (λ x. find BlockCandidate.get_id x (iter state.sent_blocks) ≡ some candidate) (sym k)
            f,
      )

-- A locked block is that of a candidate.
pub locked-Candidate :
    (desc : SessionDescription) (state : RoundState)
    → IsRound desc state
    → IsSourced state
    → (b : SentBlockPtr) → state.precommitted_block ≡ some b
    → Candidate (iter state.sent_blocks) b
locked-Candidate desc state inv sourced b e =
    let (a, f, p, v) = inv.locked b e in
    let P = Candidate (iter state.sent_blocks) in
    first_voted-Sourced P desc (iter a.votes)
      (find-All number (Sourced P) a.sequence_number (iter state.attempts) a sourced f).0.votes
      (some b) v b refl
