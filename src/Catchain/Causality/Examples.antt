-- ===== src/Catchain/Causality/Examples.antt =====
-- The first block of a source is initialised, written and delivered after the root.
use ton_labs_node.Base.{
  ℕ, zero, suc, ◌<◌, ◌≡◌, refl, Bool, true, false, List, [], ◌∷◌, ◌++◌, ◌==◌, none, Outcome, done,
  panic,
}
use ton_labs_node.Catchain.Times.{times}
use ton_labs_node.Catchain.Block.{
  ReceivedBlock, ReceivedBlockState, null, delivered, is_delivered, is_initialized, BlockDep, raise,
  update_forks_dependency_heights,
}
use ton_labs_node.Catchain.Source
use ton_labs_node.Catchain.Source.{
  ReceiverSource, block_received, block_delivered, advanced, ready, get_block, mark_as_blamed,
  next_fork, resized,
}
use ton_labs_node.Session.SortedVector.Order.{find}
use ton_labs_node.Catchain.Delivery.{
  ReceiverState, put, put_block, is_null, is_ill, is_ready, some_ill, link_dep, link_deps, schedule,
  schedule_if_ready, receive, initialize, written,
}
use ton_labs_node.Catchain.Process.{
  BlockContent, custom, new_fork, choose_fork, initialize_fork, check_deps, check_prev,
  check_content, notify_rev_deps, dependency_delivered, notice_of, pre_deliver, deliver, process,
}
use ton_labs_node.Catchain.Graph.{view, Causal, told_blocks}
use ton_labs_node.Catchain.Causality.{
  IsFresh, ReceiverReached, begins, creates, initializes, writes, runs, delivery_order-Causal,
}

-- A block with a state, a source and a height, of which nothing else is known.
abbrev block_of : ReceivedBlockState → ℕ → ℕ → ReceivedBlock
block_of state source_id height = record {
  state = state;
  height = height;
  source_id = source_id;
  hash = height;
  data_hash = height;
  signature = [];
  fork_id = 0;
  prev = none;
  next = none;
  payload = [];
  block_deps = [];
  rev_deps = [];
  forks_dep_heights = [];
  pending_deps = 0;
  in_db = false;
  is_custom = false;
}

-- Block 0 is the root, which is of no source.
abbrev blocks_at_first : ℕ → ReceivedBlock
blocks_at_first zero = block_of delivered 1 0
blocks_at_first (suc k) = block_of null 0 0

abbrev at_first : ReceiverState
at_first = record {
  blocks = blocks_at_first;
  sources = Source.new 0 ∷ [];
  receiver = record { total_forks = 0; blames = []; pending_proofs = [] };
  blocks_to_run = [];
  notices = [];
}

abbrev parse : List ℕ → BlockContent
parse payload = custom

abbrev valid : ReceiverState → BlockDep → Bool
valid state dep = true

fresh_by :
    (P : ReceivedBlock → Type 0)
    → P (block_of null 0 0)
    → (k : ℕ) → (k == 0) ≡ false
    → P (blocks_at_first k)
fresh_by P h zero e = absurd cc
fresh_by P h (suc k) e = h

at_first-IsFresh : IsFresh 0 at_first
at_first-IsFresh = record {
  root_delivered = refl;
  root_prev = refl;
  root_deps = refl;
  others_null = fresh_by (λ b. b.state ≡ null) refl;
  others_prev = fresh_by (λ b. b.prev ≡ none) refl;
  others_deps = fresh_by (λ b. b.block_deps ≡ []) refl;
  others_rev = fresh_by (λ b. b.rev_deps ≡ []) refl;
  untold = refl;
}

-- Block 1, at height 1 of source 0.
abbrev created : ReceiverState
created = put_block at_first 1 (block_of null 0 1)

abbrev state_of : ReceiverState → Outcome ReceiverState → ReceiverState
state_of other (done s) = s
state_of other panic = other

abbrev result_of : ReceiverState → Outcome (ReceiverState × Bool) → ReceiverState × Bool
result_of other (done r) = r
result_of other panic = (other, false)

unfoldable begun : ReceiverState × Bool
begun = result_of created (initialize 3 created 1 0 [] (7 ∷ []) (5 ∷ []))

begun_lem : initialize 3 created 1 0 [] (7 ∷ []) (5 ∷ []) ≡ done begun
unfolding begun put initialize is_null some_ill is_ill link_deps link_dep is_delivered
    update_forks_dependency_heights raise schedule_if_ready receive block_received advanced ready
    get_block find Source.new
begun_lem = refl

unfoldable stored : ReceiverState
stored = written begun.0 1

unfoldable told : ReceiverState
told = state_of stored (process 3 parse valid stored 1)

told_lem : process 3 parse valid stored 1 ≡ done told
unfolding told stored begun put initialize is_null some_ill is_ill link_deps link_dep is_delivered
    update_forks_dependency_heights raise schedule_if_ready schedule receive block_received advanced
    ready get_block find Source.new written process is_ready initialize_fork choose_fork new_fork
    Source.add_fork mark_as_blamed next_fork resized pre_deliver check_prev check_deps check_content
    deliver notify_rev_deps dependency_delivered notice_of block_delivered is_initialized
told_lem = refl

told_reached : ReceiverReached 0 3 parse valid at_first told
unfolding view written stored told
told_reached =
    runs
      (writes
        (initializes (creates begins 1 (block_of null 0 1) refl) 1 0 [] (7 ∷ []) (5 ∷ []) begun_lem)
        1)
      1 told_lem

delivery_order-Causal_example :
    Causal 0 told.notices
    × ((p : ℕ)
        → is_delivered (told.blocks p) ≡ true
        → 0 < times p (told_blocks told.notices ++ 0 ∷ []))
delivery_order-Causal_example =
    delivery_order-Causal 0 3 parse valid at_first at_first-IsFresh told told_reached

told_once : told_blocks told.notices ≡ 1 ∷ []
unfolding told stored begun put initialize is_null some_ill is_ill link_deps link_dep is_delivered
    update_forks_dependency_heights raise schedule_if_ready schedule receive block_received advanced
    ready get_block find Source.new written process is_ready initialize_fork choose_fork new_fork
    Source.add_fork mark_as_blamed next_fork resized pre_deliver check_prev check_deps check_content
    deliver notify_rev_deps dependency_delivered notice_of block_delivered is_initialized
told_once = refl
