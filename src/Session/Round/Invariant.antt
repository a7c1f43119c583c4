-- ===== src/Session/Round/Invariant.antt =====
-- The invariant of a round (round.rs): its vectors have an entry for each validator, its candidates
-- and attempts are in order, every signature that it holds has been verified, and a locked block is
-- the voted block of an attempt whose precommits reach the cutoff.
use ton_labs_node.Base.{
  ℕ, zero, suc, ◌+◌, ◌<◌, ◌≡◌, refl, ◌∙◌, true, List, [], length, replicate, length-replicate,
  get_elem?, u32, Option, none, some, All, done, arith, inl, ◌≢◌,
}
use ton_labs_node.Session.Description.{
  SessionDescription, pos, get_node_priority, check_approve_signature,
}
use ton_labs_node.Session.Description.Priority.{IsSized}
use ton_labs_node.Session.Vector.{create_wrapper}
use ton_labs_node.Session.SortedVector.{iter}
use ton_labs_node.Session.SortedVector.Order.{IsSorted, find}
use ton_labs_node.Session.SentBlock
use ton_labs_node.Session.SentBlock.{SentBlock, SentBlockPtr, skip_round_candidate_blockid}
use ton_labs_node.Session.BlockCandidate
use ton_labs_node.Session.BlockCandidate.{BlockCandidate, Signature}
use ton_labs_node.Session.BlockCandidate.Approvals.{IsCandidate}
use ton_labs_node.Session.Attempt.{RoundAttempt, get_voted_block, check_attempt_is_precommitted}
use ton_labs_node.Session.Attempt.Invariant.{IsAttempt}
use ton_labs_node.Session.Round.{RoundState, create_current_round}
use ton_labs_node.Session.Round.Actions.{signature_accepted}
use ton_labs_node.Session.Round.Attempts.{number, VotedAt}

-- The configuration of a session: no more candidates than an `i32` counts, and no block hashes to
-- the identifier of the skip candidate.
pub record IsConfigured (desc : SessionDescription) : Type 0 where
  pub candidates : desc.options.round_candidates + 1 < 2147483648
  pub named : (i r f c : ℕ) → desc.crypto.candidate_hash i r f c ≢ skip_round_candidate_blockid

-- The validator `i` has signed an approval of the block; the skip candidate takes an empty signature.
abbrev pub ApprovedWith : SessionDescription → SentBlockPtr → ℕ → Signature → Type 0
ApprovedWith desc none i g = g ≡ []
ApprovedWith desc (some b) i g =
    check_approve_signature desc b.root_hash b.file_hash i g ≡ done true

module _ (desc : SessionDescription) where
  -- A candidate of the round `n`: its proposer has a priority in the round.
  pub record IsRoundCandidate (n : ℕ) (candidate : BlockCandidate) : Type 0 where
    pub entries : IsCandidate desc candidate
    pub proposed :
        (b : SentBlock)
        → candidate.block ≡ some b
        → (b.id ≢ skip_round_candidate_blockid)
          × ((p : ℕ) × (get_node_priority desc b.source_id n ≡ done (pos p)))
    pub verified :
        (i : ℕ) (g : Signature)
        → get_elem? candidate.approved_by i ≡ some (some g)
        → ApprovedWith desc candidate.block i g

  -- The block is locked: an attempt has elected it and its precommits reach the cutoff.
  abbrev pub LockedIn : List RoundAttempt → SentBlockPtr → Type 0
  LockedIn attempts b =
      (a : RoundAttempt) × (find number a.sequence_number attempts ≡ some a)
      × (check_attempt_is_precommitted desc a ≡ done true)
      × (get_voted_block desc a ≡ done (some b))

  -- The validator `i` has signed the locked block.
  abbrev pub SignedWith : Option SentBlockPtr → ℕ → Signature → Type 0
  SignedWith locked i g =
      (b : SentBlockPtr) × (locked ≡ some b)
      × (signature_accepted desc i b g (SentBlock.get_id b) ≡ done true)

  pub record IsRound (state : RoundState) : Type 0 where
    pub firsts : (xs : List ℕ) × (state.first_attempt ≡ some xs) × (length xs ≡ length desc.sources)
    pub lasts :
        (ys : List ℕ) × (state.last_precommit ≡ some ys)
        × (length ys ≡ length desc.sources)
        × All (VotedAt desc (iter state.attempts)) ys
    pub blocks_sorted : IsSorted BlockCandidate.get_id (iter state.sent_blocks)
    pub blocks : All (IsRoundCandidate state.sequence_number) (iter state.sent_blocks)
    pub attempts_sorted : IsSorted number (iter state.attempts)
    pub attempts_kept : All (IsAttempt desc) (iter state.attempts)
    pub signed : length state.signatures ≡ length desc.sources
    pub verified :
        (i : ℕ) (g : Signature)
        → get_elem? state.signatures i ≡ some (some g)
        → SignedWith state.precommitted_block i g
    pub locked :
        (b : SentBlockPtr) → state.precommitted_block ≡ some b → LockedIn (iter state.attempts) b

  zeros : (attempts : List RoundAttempt) (m : ℕ) → All (VotedAt desc attempts) (replicate m 0)
  zeros attempts zero = tt
  zeros attempts (suc m) = (inl refl, zeros attempts m)

  nothing_signed : (m i : ℕ) (g : Signature) → get_elem? (replicate m none) i ≡ some (some g) → ⊥
  nothing_signed zero i g e = cc
  nothing_signed (suc m) zero g e = cc
  nothing_signed (suc m) (suc i) g e = nothing_signed m i g e

  wrapped : (m : ℕ) → 0 < m → create_wrapper {A = ℕ} (replicate m 0) ≡ some (replicate m 0)
  unfolding create_wrapper
  wrapped zero h = absurd (omega arith)
  wrapped (suc m) h = refl

  -- A new round has the invariant.
  pub create_current_round-IsRound : IsSized desc → (n : ℕ) → IsRound (create_current_round desc n)
  unfolding create_current_round
  create_current_round-IsRound sized n =
      let m = u32 (length desc.sources) in
      let e : m ≡ length desc.sources = omega arith in
      record {
        firsts = (replicate m 0, wrapped m (omega arith), length-replicate m 0 ∙ e);
        lasts = (replicate m 0, wrapped m (omega arith), length-replicate m 0 ∙ e, zeros [] m);
        blocks_sorted = tt;
        blocks = tt;
        attempts_sorted = tt;
        attempts_kept = tt;
        signed = length-replicate m none ∙ e;
        verified = λ i g q. absurd (nothing_signed m i g q);
        locked = λ b q. absurd (cc q);
      }
