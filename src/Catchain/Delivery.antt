-- ===== src/Catchain/Delivery.antt =====
-- catchain/src/received_block.rs with the parts of receiver.rs that it calls: how a block becomes
-- initialised, ill and delivered. The parse of a payload and the check of a dependency are parameters.
-- An index out of bounds, a subtraction below 0 and a loop without fuel are panics.
use ton_labs_node.Base.{
  ℕ, zero, suc, ◌+◌, Bool, true, false, not, ◌&&◌, ◌||◌, List, [], ◌∷◌, ◌++◌, length, set, ltb,
  ◌==◌, if◌then◌else◌, Option, some, Outcome, done, panic, at, unwrap, assert, ◌>>=◌, ◌>>◌,
}
use ton_labs_node.Catchain.Block.{
  ReceivedBlock, null, ill, initialized, delivered, is_delivered, update_forks_dependency_heights,
}
use ton_labs_node.Catchain.Source.{ReceiverSource, Receiver, mark_as_blamed, block_received}

-- What the listener is told of a delivered block; a pointer stands for a hash.
pub record NewBlock : Type 0 where
  pub block : ℕ
  pub source_id : ℕ
  pub fork_id : ℕ
  pub height : ℕ
  pub prev : Option ℕ
  pub deps : List ℕ
  pub forks_dep_heights : List ℕ
  pub payload : Option (List ℕ)

-- The part of the receiver that blocks change: the store of blocks, the sources, the blocks that wait
-- to be run, and the notices to the listener, the latest one first.
pub record ReceiverState : Type 0 where
  pub blocks : ℕ → ReceivedBlock
  pub sources : List ReceiverSource
  pub receiver : Receiver
  pub blocks_to_run : List ℕ
  pub notices : List NewBlock

unfoldable pub put {ℓ} : {A : Type ℓ} → (ℕ → A) → ℕ → A → ℕ → A
put f p a k = if k == p then a else f k

abbrev pub put_block : ReceiverState → ℕ → ReceivedBlock → ReceiverState
put_block state p block = record state { blocks = put state.blocks p block }

abbrev pub put_source : ReceiverState → ℕ → ReceiverSource → Receiver → ReceiverState
put_source state id source receiver = record state {
  sources = set state.sources id source;
  receiver = receiver;
}

unfoldable pub is_ill : ReceivedBlock → Bool
is_ill block = elim block.state [
  | null ↦ false
  | ill ↦ true
  | initialized ↦ false
  | delivered ↦ false
]

unfoldable pub is_null : ReceivedBlock → Bool
is_null block = elim block.state [
  | null ↦ true
  | ill ↦ false
  | initialized ↦ false
  | delivered ↦ false
]

unfoldable pub is_ready : ReceivedBlock → Bool
is_ready block = elim block.state [
  | null ↦ false
  | ill ↦ false
  | initialized ↦ true
  | delivered ↦ false
]

unfoldable pub mark_source : ReceiverState → ℕ → Outcome ReceiverState
mark_source state id = at state.sources id >>= λ source.
    let marked = mark_as_blamed source state.receiver in
    done (put_source state id marked.0 marked.1)

-- One call of `set_ill`: the new state and the blocks that it goes on to.
unfoldable pub visit : ReceiverState → ℕ → Outcome (ReceiverState × List ℕ)
unfolding mark_source
visit state p =
    let block = state.blocks p in
    if is_ill block
    then done (state, [])
    else (mark_source state block.source_id >>= λ marked.
        done (put_block marked p (record block { state = ill }), block.rev_deps))

-- `set_ill` with the calls that are still to be made.
unfoldable pub set_ill : ℕ → ReceiverState → List ℕ → Outcome ReceiverState
unfolding visit
set_ill zero state todo = panic
set_ill (suc fuel) state [] = done state
set_ill (suc fuel) state (p ∷ todo) =
    visit state p >>= λ visited. set_ill fuel visited.0 (visited.1 ++ todo)

unfoldable pub schedule : ReceiverState → ℕ → ReceiverState
schedule state p = record state { blocks_to_run = state.blocks_to_run ++ p ∷ [] }

-- A block of the list is ill.
unfoldable pub some_ill : (ℕ → ReceivedBlock) → List ℕ → Bool
some_ill blocks [] = false
some_ill blocks (d ∷ deps) = is_ill (blocks d) || some_ill blocks deps

-- One dependency `d` of the block `p`: its heights are taken over, or it is told that `p` waits for it.
unfoldable pub link_dep : (ℕ → ReceivedBlock) → ℕ → ℕ → ℕ → ReceivedBlock
link_dep blocks p d =
    let dep = blocks d in
    let block = blocks p in
    if is_delivered dep
    then put blocks p (record block {
      forks_dep_heights =
          update_forks_dependency_heights block.forks_dep_heights dep.forks_dep_heights;
    })
    else put blocks d (record dep { rev_deps = dep.rev_deps ++ p ∷ [] })

-- The loop of `initialize` over the previous block and the dependencies, which counts those that are
-- pending.
unfoldable pub link_deps : (ℕ → ReceivedBlock) → ℕ → List ℕ → (ℕ → ReceivedBlock) × ℕ
unfolding link_dep
link_deps blocks p [] = (blocks, 0)
link_deps blocks p (d ∷ deps) =
    let rest = link_deps (link_dep blocks p d) p deps in
    (rest.0, (if is_delivered (blocks d) then 0 else 1) + rest.1)

unfoldable pub schedule_if_ready : ReceiverState → ℕ → ReceiverState
unfolding schedule
schedule_if_ready state p =
    let block = state.blocks p in
    if block.pending_deps == 0 && block.in_db then schedule state p else state

unfoldable pub written : ReceiverState → ℕ → ReceiverState
unfolding schedule
written state p =
    let block = state.blocks p in
    let stored = put_block state p (record block { in_db = true }) in
    if block.in_db then state else if block.pending_deps == 0 then schedule stored p else stored

module _ (fuel : ℕ) where
  unfoldable pub receive : ReceiverState → ℕ → Outcome ReceiverState
  receive state p =
      let block = state.blocks p in
      at state.sources block.source_id >>= λ source.
      unwrap (block_received state.blocks fuel source block.height) >>= λ moved.
      done (put_source state block.source_id moved state.receiver)

  -- `initialize`, with the blocks that `create_block` returns; the flag tells whether it succeeds.
  unfoldable pub initialize :
      ReceiverState → ℕ → ℕ → List ℕ → List ℕ → List ℕ → Outcome (ReceiverState × Bool)
  unfolding some_ill link_deps schedule_if_ready receive set_ill
  initialize state p prev deps signature payload =
      let block = state.blocks p in
      let begun = put_block state p (record block {
        payload = payload;
        prev = some prev;
        block_deps = block.block_deps ++ deps;
        signature = signature;
        state = initialized;
      }) in
      if not (is_null block)
      then done (state, true)
      else (assert (ltb 0 (length payload))
          >> (if some_ill begun.blocks (prev ∷ (block.block_deps ++ deps))
              then (set_ill fuel begun (p ∷ []) >>= λ marked. done (marked, false))
              else (let linked = link_deps begun.blocks p (prev ∷ (block.block_deps ++ deps)) in
                  let counted = record begun {
                    blocks = put linked.0 p (record (linked.0 p) { pending_deps = linked.1 });
                  } in
                  receive (schedule_if_ready counted p) p >>= λ received. done (received, true))))
