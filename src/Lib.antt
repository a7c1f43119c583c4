-- ===== src/Lib.antt =====
-- Parts of the TON node. The consensus of the validator session: the replicated state in which
-- validators propose blocks, approve them, vote, precommit and sign, and the merge of two such states.
-- The sources of the catchain, the broadcast layer below it. The package files of the archive.
--
-- Parts (Session is validator-session/src):
--   * Session/Description.antt: session_description.rs. Validators with weights, the cutoff of a
--     quorum, priorities of proposers, delays, signature checks. `weigh` is the loop that
--     check_block_is_voted, check_block_is_approved, check_attempt_is_precommitted and
--     check_block_is_signed share.
--   * Session/Merge.antt, Session/Vector.antt, Session/SortedVector.antt: utils.rs and vector.rs.
--     Vectors and sorted vectors with their merges. Session/SortedVector has the finite map that a
--     sorted vector stands for, and the insertion by a walk.
--   * Session/SentBlock.antt, Session/VoteCandidate.antt, Session/BlockCandidate.antt: the files of
--     these names. A block, the votes for it, the signatures that approve it.
--   * Session/Message.antt: the messages that round.rs and round_attempt.rs match on.
--   * Session/Attempt.antt: round_attempt.rs. The votes, precommits and vote-for block of an attempt.
--     Its children have the invariant, the actions as moves, and the merge.
--   * Session/Round.antt and Session/Round/Actions.antt: round.rs. The state of a round, the choice of
--     a block to vote for, and the handlers of the messages; the other children have the invariant
--     (Invariant), the choice (Voting, Choosing), each group of handlers (Blocks, Approving, Signing,
--     Stepping, Recording, Locking), the whole step (Steps) and the reachable rounds (Outcomes).
--     Session/Round/Merging.antt has the merge, Session/Round/Proposing.antt the blocks to approve
--     and to propose.
--     The children Sourced say that every block comes from a candidate, the children Progress measure
--     how far the node's own steps have come.
--   * Session/OldRound.antt: old_round.rs. A round that has ended with a committed block, with its
--     late approvals and signatures; the merge of two such, and of one with a round that goes on.
--   * Session/State.antt: session_state.rs. The whole state of the session. Its children have the
--     invariant (Invariant), the messages (Steps), the loop of own steps (Making), what is committed
--     (Outcomes) and the commit that ends a round (Committing).
--   * Catchain/Source.antt: catchain/src/receiver_source.rs, with what it uses of received_block.rs and
--     receiver.rs. Its children say when a source is blamed and how far its blocks reach.
--   * Catchain/Block.antt, Catchain/Delivery.antt, Catchain/Process.antt: catchain/src/received_block.rs.
--     A block, how it is initialised and becomes ill, how it is checked and delivered. Catchain/Graph is
--     the invariant of the dependencies, with a child for each operation; Catchain/Causality has the
--     order of deliveries.
--   * Storage/Bytes.antt, Storage/PackageEntry.antt, Storage/Package.antt: package_entry.rs and
--     package.rs of storage/src/archives. The format of a package of archived blocks; Package/Entries
--     is the package as a list of entries.
--   * Base.antt and its children: lists over native numbers, Boolean tests, code that may panic.
--
-- Interaction: a round passes votes, precommits, vote-fors and empty messages on to its attempt, which
-- asks the round back through `RoundView` (the `&dyn RoundState` argument). A round keeps its blocks
-- and its attempts in sorted vectors and finds an attempt by binary search. A failed `assert!`, an
-- index out of bounds, an `unwrap` of nothing and a remainder by zero are `panic`. Integers are
-- native numbers, with `u32` and `u64` written where the source adds or multiplies. A delivered block
-- of the catchain tells the blocks that depend on it, and the receiver's queue runs a block that waits
-- for no other; sources mark themselves as blamed and tell the receiver.
--
-- Bounds and fuel: a quorum is computed without overflow when twice the total weight fits a `u64`
-- (`IsWeighed`); the number of validators is positive and twice it fits a `u32` (`IsSized`); the
-- number of candidates fits an `i32` (`IsConfigured`). The fuel of the binary search is the number of
-- items, which bounds its interval; the searches are shown to return. The loop of own steps
-- has fuel 5, since each step but the last makes progress in a measure below 5. The loop over received
-- blocks needs fuel above the heights of the blocks, the reading of a package fuel above the number of
-- its entries; both are conditions of the theorems on them.
--
-- Taken as parameters: the hash of a public key and of a candidate, and the two signature checks
-- (`Crypto`); the parse of the payload of a catchain block and the check of a dependency. No candidate
-- is assumed to hash to the all-zero identifier of the skip candidate. Equality of pooled objects is
-- one of addresses: a parameter `Same` that implies equal values.
--
-- Not modelled: hashes and pools of the objects, logs and metrics, creation times, the session
-- processor (threads, timers and callbacks), of catchain/ all but the sources and the
-- blocks (there keys, statistics, sending times and serialised forms; heights are natural numbers, and
-- a block that is not yet created is a null block of the store), of storage/ all but the packages (there
-- file paths, locks and failures of the disk), and src/, which works on cells, blocks and overlays of other crates.
pub mod Base
pub mod Session
pub mod Catchain
pub mod Storage
