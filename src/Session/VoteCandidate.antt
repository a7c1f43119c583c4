-- ===== src/Session/VoteCandidate.antt =====
-- validator-session/src/vote_candidate.rs: a block and the validators that voted for it.
pub mod Votes
use ton_labs_node.Base.{
  ℕ, Bool, true, false, List, replicate, ◌==◌, if◌then◌else◌, Outcome, done, panic, at, assert,
  ◌>>=◌, ◌>>◌,
}
use ton_labs_node.Session.Description.{SessionDescription, get_total_nodes, weigh}
use ton_labs_node.Session.Vector.{change}
use ton_labs_node.Session.Vector.Merging.{merge_bools}
use ton_labs_node.Session.SentBlock
use ton_labs_node.Session.SentBlock.{SentBlockPtr}

pub record VoteCandidate : Type 0 where
  pub block : SentBlockPtr
  pub voted_by : List Bool

abbrev pub get_id : VoteCandidate → ℕ
get_id vote = SentBlock.get_id vote.block

abbrev pub voted : Bool → Bool
voted b = b

unfoldable pub check_block_is_voted : SessionDescription → VoteCandidate → Outcome Bool
check_block_is_voted desc vote = weigh voted desc vote.voted_by

abbrev pub check_block_is_voted_by : VoteCandidate → ℕ → Outcome Bool
check_block_is_voted_by vote src_idx = at vote.voted_by src_idx

-- `VoteCandidateWrapper::push`
unfoldable pub push : VoteCandidate → ℕ → Outcome VoteCandidate
unfolding change
push vote src_idx = do
  has_vote ← at vote.voted_by src_idx
  if has_vote then done vote else do
    voted_by ← change vote.voted_by src_idx true
    done (record vote { voted_by = voted_by })

-- `impl Merge for VoteCandidate`
pub merge : VoteCandidate → VoteCandidate → Outcome VoteCandidate
merge left right = do
  assert (get_id left == get_id right)
  voted_by ← merge_bools left.voted_by right.voted_by
  done (record left { voted_by = voted_by })

-- `VoteCandidateImpl::create_unvoted`
unfoldable pub create_unvoted : SessionDescription → SentBlockPtr → VoteCandidate
create_unvoted desc block = record {
  block = block;
  voted_by = replicate (get_total_nodes desc) false;
}
