-- ===== src/Session/Round/Proposing.antt =====
-- validator-session/src/round.rs: the vote-for block that an author proposes, and the blocks that a
-- validator is to approve. The random number is an argument.
pub mod Proposals
pub mod Skipping
pub mod Ranked
pub mod Approvable
pub mod Examples
use ton_labs_node.Base.{
  ℕ, suc, ◌%◌, Bool, true, false, not, ◌||◌, List, [], ◌∷◌, ◌++◌, length, replicate, set, ltb, ◌==◌,
  if◌then◌else◌, Option, none, some, u32, Outcome, done, panic, at, assert, ◌>>=◌, ◌>>◌, ◌+◌,
}
use ton_labs_node.Session.Description.{
  SessionDescription, ℤ, pos, negsuc, get_vote_for_author, get_node_priority, get_max_priority,
}
use ton_labs_node.Session.SortedVector.{iter}
use ton_labs_node.Session.SentBlock.{SentBlockPtr}
use ton_labs_node.Session.BlockCandidate
use ton_labs_node.Session.BlockCandidate.{
  BlockCandidate, check_block_is_approved, check_block_is_approved_by,
}
use ton_labs_node.Session.Message
use ton_labs_node.Session.Message.{Message}
use ton_labs_node.Session.Round.{RoundState}

approved_ids : SessionDescription → List BlockCandidate → Outcome (List ℕ)
approved_ids desc [] = done []
approved_ids desc (block ∷ blocks) = do
  approved ← check_block_is_approved desc block
  rest ← approved_ids desc blocks
  done (if approved then BlockCandidate.get_id block ∷ rest else rest)

pub generate_vote_for : SessionDescription → ℕ → RoundState → ℕ → ℕ → Outcome Message
unfolding approved_ids
generate_vote_for desc random state src_idx attempt_id = do
  author ← get_vote_for_author desc attempt_id
  assert (src_idx == author)
  candidate_block_ids ← approved_ids desc (iter state.sent_blocks)
  assert (ltb 0 (length candidate_block_ids))
  candidate ← at candidate_block_ids (random % length candidate_block_ids)
  done (Message.vote_for state.sequence_number attempt_id candidate)

-- What `choose_blocks_to_approve` has seen: a candidate for each priority, the proposers, and whether
-- the skip candidate is there and approved.
pub record Ranking : Type 0 where
  pub block_candidates : List (Option BlockCandidate)
  pub sources_proposal_set : List ℕ
  pub was_empty : Bool

contains : List ℕ → ℕ → Bool
contains [] source = false
contains (x ∷ sources) source = x == source || contains sources source

-- `assert!(priority >= 0)` and the cast
non_negative : ℤ → Outcome ℕ
non_negative (pos n) = done n
non_negative (negsuc n) = panic

-- An assignment to an entry, which panics out of bounds.
put :
    List (Option BlockCandidate)
    → ℕ
    → Option BlockCandidate
    → Outcome (List (Option BlockCandidate))
put candidates priority candidate = do
  _ ← at candidates priority
  done (set candidates priority candidate)

module _ (desc : SessionDescription) (sequence_number src_idx : ℕ) where
  -- A block takes the place of its priority if it is its proposer's first and is not yet approved; a
  -- second block of the proposer clears the place.
  rank_block : Ranking → BlockCandidate → ℕ → Outcome Ranking
  unfolding contains non_negative put
  rank_block ranking candidate source = do
    signed ← get_node_priority desc source sequence_number
    priority ← non_negative signed
    if contains ranking.sources_proposal_set source
        then (put ranking.block_candidates priority none >>= λ cleared.
            done (record ranking { block_candidates = cleared }))
        else do
          approved ← check_block_is_approved_by candidate src_idx
          placed ←
              if approved
              then done ranking.block_candidates
              else put ranking.block_candidates priority (some candidate)
          done (record ranking {
            block_candidates = placed;
            sources_proposal_set = source ∷ ranking.sources_proposal_set;
          })

  rank_by_block : Ranking → BlockCandidate → SentBlockPtr → Outcome Ranking
  unfolding rank_block
  rank_by_block ranking candidate none =
      check_block_is_approved_by candidate src_idx >>= λ approved.
      done (record ranking { was_empty = approved })
  rank_by_block ranking candidate (some block) = rank_block ranking candidate block.source_id

  pub rank_from : Ranking → List BlockCandidate → Outcome Ranking
  unfolding rank_by_block
  rank_from ranking [] = done ranking
  rank_from ranking (candidate ∷ candidates) =
      rank_by_block ranking candidate candidate.block >>= λ next. rank_from next candidates

pub placed_blocks : List (Option BlockCandidate) → List SentBlockPtr
placed_blocks [] = []
placed_blocks (none ∷ candidates) = placed_blocks candidates
placed_blocks (some candidate ∷ candidates) = candidate.block ∷ placed_blocks candidates

pub choose_blocks_to_approve : SessionDescription → RoundState → ℕ → Outcome (List SentBlockPtr)
unfolding rank_from placed_blocks
choose_blocks_to_approve desc state src_idx = elim state.sent_blocks [
  | none ↦ done (none ∷ [])
  | some candidates ↦
      rank_from desc state.sequence_number src_idx
        (record {
          block_candidates = replicate (u32 (get_max_priority desc + 2)) none;
          sources_proposal_set = [];
          was_empty = false;
        })
        candidates
      >>= λ ranking.
          (let blocks = placed_blocks ranking.block_candidates in
            done (if not ranking.was_empty then blocks ++ none ∷ [] else blocks))
]
