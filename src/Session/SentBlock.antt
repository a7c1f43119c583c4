-- ===== src/Session/SentBlock.antt =====
-- validator-session/src/sent_block.rs: a proposed block. Creation times, the pool and the hash are
-- left out. No block at all stands for the candidate that skips the round.
use ton_labs_node.Base.{ℕ, Option, none, some, Outcome, done, ◌>>=◌}
use ton_labs_node.Session.Description.{SessionDescription, candidate_id}

pub record SentBlock : Type 0 where
  pub id : ℕ
  pub source_id : ℕ
  pub root_hash : ℕ
  pub file_hash : ℕ
  pub collated_data_file_hash : ℕ

-- `SentBlockPtr`
abbrev pub SentBlockPtr : Type 0
SentBlockPtr = Option SentBlock

-- `SKIP_ROUND_CANDIDATE_BLOCKID` and `DEFAULT_BLOCKID`, both `UInt256::default()`.
abbrev pub skip_round_candidate_blockid : ℕ
skip_round_candidate_blockid = 0

abbrev pub get_id : SentBlockPtr → ℕ
get_id none = skip_round_candidate_blockid
get_id (some block) = block.id

-- `std::u32::MAX` stands for the source of the skip candidate.
abbrev pub get_source_index : SentBlockPtr → ℕ
get_source_index none = 4294967295
get_source_index (some block) = block.source_id

-- `impl Merge<Option<PoolPtr<dyn SentBlock>>>`
unfoldable pub merge : SentBlockPtr → SentBlockPtr → SentBlockPtr
merge none right = right
merge (some l) right = some l

-- `SentBlockImpl::create`
unfoldable pub create : SessionDescription → ℕ → ℕ → ℕ → ℕ → Outcome SentBlockPtr
create desc source_id root_hash file_hash collated_data_file_hash = do
  id ← candidate_id desc source_id root_hash file_hash collated_data_file_hash
  done (
      some (record {
        id = id;
        source_id = source_id;
        root_hash = root_hash;
        file_hash = file_hash;
        collated_data_file_hash = collated_data_file_hash;
      }))
