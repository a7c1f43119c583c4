-- ===== src/Session/Message.antt =====
-- The messages of a round (`validatorSession.round.Message`, as validator-session/src/round.rs and
-- round_attempt.rs match on it). A candidate is its identifier, a signature its bytes.
use ton_labs_node.Base.{ℕ, List, u32}

pub data Message : Type 0 where
  -- round, root hash, file hash, hash of the collated data
  submitted_block : ℕ → ℕ → ℕ → ℕ → Message
  -- round, candidate, signature
  approved_block : ℕ → ℕ → List ℕ → Message
  -- round, candidate, reason
  rejected_block : ℕ → ℕ → List ℕ → Message
  -- round, candidate, signature
  commit : ℕ → ℕ → List ℕ → Message
  -- round, attempt, candidate
  vote : ℕ → ℕ → ℕ → Message
  precommit : ℕ → ℕ → ℕ → Message
  vote_for : ℕ → ℕ → ℕ → Message
  -- round, attempt
  empty : ℕ → ℕ → Message

-- `get_round_id` of session_state.rs
unfoldable pub get_round_id : Message → ℕ
get_round_id (submitted_block round _ _ _) = u32 round
get_round_id (approved_block round _ _) = u32 round
get_round_id (rejected_block round _ _) = u32 round
get_round_id (commit round _ _) = u32 round
get_round_id (vote round _ _) = u32 round
get_round_id (precommit round _ _) = u32 round
get_round_id (vote_for round _ _) = u32 round
get_round_id (empty round _) = u32 round
