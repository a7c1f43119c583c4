-- ===== src/Session/Round/Proposing/Examples.antt =====
-- Proposals and approvals in a small round, for the tests (round.rs).
use ton_labs_node.Base.{◌↔◌, ℕ, ◌≡◌, refl, true, false, List, some, get_elem?, done, arith}
use ton_labs_node.Session.Description.{get_vote_for_author, weigh}
use ton_labs_node.Session.Description.Examples.{heavy, heavy-IsWeighed, heavy-IsSized}
use ton_labs_node.Session.SortedVector.{iter}
use ton_labs_node.Session.SentBlock.{SentBlock, SentBlockPtr}
use ton_labs_node.Session.BlockCandidate.{
  BlockCandidate, check_block_is_approved, check_block_is_approved_by,
}
use ton_labs_node.Session.Message.{Message}
use ton_labs_node.Session.Round.{
  check_need_generate_vote_for, some_approved, need_vote_for, get_attempt,
}
use ton_labs_node.Session.Round.Examples.{approved, approved-IsRound, heavy-IsConfigured}
use ton_labs_node.Session.Round.Proposing.{generate_vote_for, choose_blocks_to_approve}
use ton_labs_node.Session.Round.Proposing.Proposals.{ApprovedId, generate_vote_for-approved}
use ton_labs_node.Session.Round.Proposing.Skipping.{SkipIsOpen}
use ton_labs_node.Session.Round.Proposing.Approvable.{HasSkip, choose_blocks_to_approve-open}

-- The first validator began with the attempt 5 and is the author of the attempt 12.
has_to_propose : check_need_generate_vote_for heavy approved 0 12 ≡ done true
unfolding check_need_generate_vote_for need_vote_for get_vote_for_author get_attempt some_approved
    check_block_is_approved weigh
has_to_propose = refl

generate_vote_for-approved_example :
    (k : ℕ) × (generate_vote_for heavy 77 approved 0 12 ≡ done (Message.vote_for 0 12 k))
    × ApprovedId heavy (iter approved.sent_blocks) k
generate_vote_for-approved_example =
    generate_vote_for-approved heavy heavy-IsWeighed heavy-IsSized approved approved-IsRound 0 12
      (omega arith) 77 has_to_propose

choose_blocks_to_approve-open_example :
    (bs : List SentBlockPtr) × (choose_blocks_to_approve heavy approved 1 ≡ done bs)
    × ((i : ℕ) (b : SentBlock)
        → get_elem? bs i ≡ some (some b)
        → (c : BlockCandidate) × (c.block ≡ some b)
          × ((j : ℕ) × (get_elem? (iter approved.sent_blocks) j ≡ some c))
          × (check_block_is_approved_by c 1 ≡ done false))
    × (HasSkip bs ↔ SkipIsOpen 1 (iter approved.sent_blocks))
choose_blocks_to_approve-open_example =
    choose_blocks_to_approve-open heavy heavy-IsConfigured approved approved-IsRound 1 (omega arith)
