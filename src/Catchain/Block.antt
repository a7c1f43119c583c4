-- ===== src/Catchain/Block.antt =====
-- catchain/src/received_block.rs: a block that has been received, or is known as a dependency. A pointer
-- to a block is its number in the store of blocks, a function; heights are natural numbers, since a
-- negative height is refused before. The times of sending, the serialised block and the counters are
-- left out.
pub mod Heights
use ton_labs_node.Base.{
  ℕ, ◌-◌, Bool, true, false, List, [], ◌∷◌, ◌++◌, length, replicate, ltb, if◌then◌else◌, Option,
}

pub data ReceivedBlockState : Type 0 where
  null ill initialized delivered : ReceivedBlockState

pub record ReceivedBlock : Type 0 where
  pub state : ReceivedBlockState
  pub height : ℕ
  pub source_id : ℕ
  pub hash : ℕ
  pub data_hash : ℕ
  pub signature : List ℕ
  pub fork_id : ℕ
  pub prev : Option ℕ
  pub next : Option ℕ
  pub payload : List ℕ
  pub block_deps : List ℕ
  pub rev_deps : List ℕ
  pub forks_dep_heights : List ℕ
  pub pending_deps : ℕ
  pub in_db : Bool
  pub is_custom : Bool

unfoldable pub is_initialized : ReceivedBlock → Bool
is_initialized block = elim block.state [
  | null ↦ false
  | ill ↦ false
  | initialized ↦ true
  | delivered ↦ true
]

unfoldable pub is_delivered : ReceivedBlock → Bool
is_delivered block = elim block.state [
  | null ↦ false
  | ill ↦ false
  | initialized ↦ false
  | delivered ↦ true
]

-- A `BlockDep`
pub record BlockDep : Type 0 where
  pub src : ℕ
  pub data_hash : ℕ
  pub height : ℕ
  pub signature : List ℕ

abbrev pub export_tl_dep : ReceivedBlock → BlockDep
export_tl_dep block = record {
  src = block.source_id;
  data_hash = block.data_hash;
  height = block.height;
  signature = block.signature;
}

-- Two blocks of one source at one height.
pub record BlockDataFork : Type 0 where
  pub left : BlockDep
  pub right : BlockDep

-- The heights are raised one by one, once there are enough of them.
unfoldable pub raise : List ℕ → List ℕ → List ℕ
raise heights [] = heights
raise [] (h ∷ others) = []
raise (m ∷ heights) (h ∷ others) = (if ltb m h then h else m) ∷ raise heights others

unfoldable pub update_forks_dependency_heights : List ℕ → List ℕ → List ℕ
unfolding raise
update_forks_dependency_heights heights others =
    raise (heights ++ replicate (length others - length heights) 0) others
