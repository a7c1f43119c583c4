-- ===== src/Catchain/Source/Examples.antt =====
-- A source with two blocks in a row, and with a fork at the first height.
use ton_labs_node.Base.{
  ℕ, zero, suc, ◌≡◌, refl, [], ◌∷◌, true, false, done, some, Outcome, ◌>>=◌, arith, none, ◌+◌,
}
use ton_labs_node.Session.SortedVector.Order.{insert, find}
use ton_labs_node.Catchain.Block.{ReceivedBlock, initialized, is_initialized}
use ton_labs_node.Catchain.Source.{
  ReceiverSource, Receiver, new, process_new_block, fork_found, get_block, set_fork_proof,
  mark_as_blamed, ready, advanced, block_received,
}
use ton_labs_node.Catchain.Source.Heights.{block_received-Reaches, Reaches}
use ton_labs_node.Catchain.Source.Blaming.{created, processes, SourceReached-IsSource, IsSource}

-- A block of source 4.
abbrev block_at : ℕ → ℕ → ReceivedBlock
block_at height hash = record {
  state = initialized;
  height = height;
  source_id = 4;
  hash = hash;
  data_hash = hash + 1;
  signature = hash ∷ [];
  fork_id = 0;
  prev = none;
  next = none;
  payload = hash ∷ [];
  block_deps = [];
  rev_deps = [];
  forks_dep_heights = [];
  pending_deps = 0;
  in_db = true;
  is_custom = false;
}

-- Blocks 0 and 2 stand at height 1, block 1 at height 2.
abbrev store : ℕ → ReceivedBlock
store zero = block_at 1 70
store (suc zero) = block_at 2 80
store (suc (suc n)) = block_at 1 90

abbrev fresh : Receiver
fresh = record { total_forks = 0; blames = []; pending_proofs = [] }

abbrev filled : ReceiverSource
filled = record {
  id = 4;
  blamed = false;
  blocks = (1, 0) ∷ (2, 1) ∷ [];
  delivered_height = 0;
  received_height = 0;
  fork_proof = none;
  fork_ids = [];
  blamed_heights = [];
}

fills :
    (process_new_block store (new 4) 1 fresh >>= λ p. process_new_block store p.0 0 p.1)
    ≡ done (filled, fresh)
unfolding process_new_block new get_block find insert
fills = refl

abbrev first : ReceiverSource
first = record filled { blocks = (1, 0) ∷ [] }

first_filled : process_new_block store (new 4) 0 fresh ≡ done (first, fresh)
unfolding process_new_block new get_block find insert
first_filled = refl

abbrev fork_result : Outcome (ReceiverSource × Receiver) → ReceiverSource × Receiver
fork_result (done p) = p
fork_result other = (first, fresh)

-- The second block at height 1.
unfoldable forked : ReceiverSource × Receiver
unfolding process_new_block fork_found get_block find insert set_fork_proof mark_as_blamed
forked = fork_result (process_new_block store first 2 fresh)

second_filled : process_new_block store first 2 fresh ≡ done forked
unfolding forked process_new_block fork_found get_block find insert set_fork_proof mark_as_blamed
second_filled = refl

block_received-Reaches_example :
    (reached : ℕ) × (block_received store 3 filled 1
      ≡ some (record filled { received_height = reached }))
    × Reaches store is_initialized filled 1 reached
block_received-Reaches_example =
    block_received-Reaches store filled 1 3 refl (omega arith) (omega arith, (omega arith, tt))

SourceReached-IsSource_example : IsSource 4 0 forked.0 forked.1
SourceReached-IsSource_example =
    SourceReached-IsSource store 4 fresh forked.0 forked.1
      (processes (processes created 0 first_filled) 2 second_filled)

received_two : block_received store 3 filled 1 ≡ some (record filled { received_height = 2 })
unfolding block_received advanced ready get_block find is_initialized
received_two = refl
