-- ===== src/Session.antt =====
-- The validator session (validator-session/src).
pub mod Description
pub mod Merge
pub mod Vector
pub mod SortedVector
pub mod SentBlock
pub mod VoteCandidate
pub mod BlockCandidate
pub mod Message
pub mod Attempt
pub mod Round
pub mod OldRound
pub mod State
pub mod Examples
