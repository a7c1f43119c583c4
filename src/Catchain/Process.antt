-- ===== src/Catchain/Process.antt =====
-- catchain/src/received_block.rs: `process`, which gives a block its fork, checks it and delivers it.
-- Borrows of blocks and sources that the code holds across a call are left out.
use ton_labs_node.Base.{
  ℕ, ◌-◌, Bool, true, false, not, ◌&&◌, ◌||◌, List, [], ◌∷◌, set, get_elem?, ltb, leb, ◌==◌,
  if◌then◌else◌, none, some, is_some, Outcome, done, at, unwrap, assert, ◌>>=◌, ◌>>◌,
}
use ton_labs_node.Catchain.Block.{
  ReceivedBlock, delivered, BlockDep, BlockDataFork, update_forks_dependency_heights,
}
use ton_labs_node.Catchain.Source
use ton_labs_node.Catchain.Source.{
  ReceiverSource, Receiver, mark_as_blamed, set_fork_proof, resized, block_delivered,
}
use ton_labs_node.Catchain.Delivery.{
  ReceiverState, NewBlock, put, put_block, put_source, is_ill, is_ready, set_ill, schedule_if_ready,
}

-- What the payload of a block says.
pub data BlockContent : Type 0 where
  fork_blame : BlockDep → BlockDep → BlockContent
  nop : BlockContent
  custom : BlockContent

-- What the check of a dependency says of a block.
pub data Verdict : Type 0 where
  fine ill_block blaming : Verdict

-- A new fork of the source.
unfoldable pub new_fork : ReceiverState → ℕ → Outcome (ReceiverState × ℕ)
new_fork state id = do
  source ← at state.sources id
  (added, receiver, fork_id) ← Source.add_fork source state.receiver
  done (put_source state id added receiver, fork_id)

-- The fork of a block: that of the block before it, unless another block has taken that.
unfoldable pub choose_fork : ReceiverState → ℕ → Outcome (ReceiverState × ℕ)
unfolding new_fork
choose_fork state p =
    let block = state.blocks p in
    if block.height == 1
    then new_fork state block.source_id
    else (unwrap block.prev >>= λ before.
        let prev = state.blocks before in
        if is_some prev.next
        then new_fork state block.source_id
        else done (put_block state before (record prev { next = some p }), prev.fork_id))

unfoldable pub initialize_fork : ReceiverState → ℕ → Outcome ReceiverState
unfolding choose_fork resized
initialize_fork state p =
    assert (is_ready (state.blocks p))
    >> (assert ((state.blocks p).fork_id == 0)
        >> (choose_fork state p >>= λ chosen.
            let block = chosen.0.blocks p in
            let heights = resized block.forks_dep_heights chosen.1 in
            at heights chosen.1 >>= λ height.
            assert (ltb height block.height)
            >> done (
                put_block chosen.0 p (record block {
                  fork_id = chosen.1;
                  forks_dep_heights = set heights chosen.1 block.height;
                }))))

-- The height at which a fork is known, if it passes the test.
unfoldable pub known : List ℕ → ℕ → (ℕ → Bool) → Bool
known heights fork test = elim (get_elem? heights fork) [ none ↦ false | some height ↦ test height ]

-- The previous block knows another fork of the source.
unfoldable pub another_fork : List ℕ → ℕ → List ℕ → Bool
unfolding known
another_fork prev_heights fork [] = false
another_fork prev_heights fork (id ∷ ids) =
    not (id == fork) && known prev_heights id (λ height. not (height == 0))
    || another_fork prev_heights fork ids

-- The previous block knows a fork at a height from which on the source is blamed.
unfoldable pub knows_blame : List ℕ → List ℕ → Bool
knows_blame [] prev_heights = false
knows_blame (b ∷ blamed_heights) [] = false
knows_blame (b ∷ blamed_heights) (h ∷ prev_heights) =
    not (b == 0 || ltb h b) || knows_blame blamed_heights prev_heights

unfoldable pub check_dep : ReceiverState → List ℕ → ℕ → Outcome Verdict
unfolding known another_fork knows_blame
check_dep state prev_heights d =
    let dep = state.blocks d in
    at state.sources dep.source_id >>= λ source. done (
      if known prev_heights dep.fork_id (λ height. leb dep.height height)
      then ill_block
      else if not source.blamed
      then fine
      else if another_fork prev_heights dep.fork_id source.fork_ids
      then blaming
      else if knows_blame source.blamed_heights prev_heights
      then blaming
      else fine)

-- The first check that is not passed.
unfoldable pub check_deps : ReceiverState → List ℕ → List ℕ → Outcome Verdict
unfolding check_dep
check_deps state prev_heights [] = done fine
check_deps state prev_heights (d ∷ deps) = check_dep state prev_heights d >>= λ verdict.
    elim verdict [
      | fine ↦ check_deps state prev_heights deps
      | ill_block ↦ done ill_block
      | blaming ↦ done blaming
    ]

unfoldable pub check_prev : ReceiverState → ReceivedBlock → Outcome Verdict
unfolding check_deps
check_prev state block = elim block.prev [
  | none ↦ done fine
  | some before ↦ check_deps state (state.blocks before).forks_dep_heights block.block_deps
]

unfoldable pub is_fork : BlockDep → BlockDep → Bool
is_fork left right =
    left.height == right.height && left.src == right.src && not (left.data_hash == right.data_hash)

-- A proof of a fork is kept by its source, which is blamed.
unfoldable pub prove_fork : ReceiverState → BlockDep → BlockDep → Outcome ReceiverState
prove_fork state left right = at state.sources left.src >>= λ source.
    let fork : BlockDataFork = record { left = left; right = right } in
    let marked = mark_as_blamed (set_fork_proof source fork) state.receiver in
    done (put_source state left.src marked.0 marked.1)

unfoldable pub blame_source : ReceiverState → ReceivedBlock → Outcome ReceiverState
blame_source state block = at state.sources block.source_id >>= λ source.
    Source.blame source block.fork_id block.height state.receiver >>= λ blamed.
    done (put_source state block.source_id blamed.0 blamed.1)

-- Of `block`, a dependency of `p` that has been delivered.
unfoldable pub dependency_delivered : ReceiverState → ReceivedBlock → ℕ → Outcome ReceiverState
unfolding schedule_if_ready
dependency_delivered state block p =
    let waiting = state.blocks p in
    let changed = put_block state p (record waiting {
      forks_dep_heights =
          update_forks_dependency_heights waiting.forks_dep_heights block.forks_dep_heights;
      pending_deps = waiting.pending_deps - 1;
    }) in
    if is_ill waiting
    then done state
    else (assert (not (is_ill block))
        >> (assert (ltb 0 waiting.pending_deps) >> done (schedule_if_ready changed p)))

unfoldable pub notify_rev_deps : ReceiverState → ReceivedBlock → List ℕ → Outcome ReceiverState
unfolding dependency_delivered
notify_rev_deps state block [] = done state
notify_rev_deps state block (p ∷ rev_deps) =
    dependency_delivered state block p >>= λ next. notify_rev_deps next block rev_deps

unfoldable pub notice_of : ℕ → ReceivedBlock → NewBlock
notice_of p block = record {
  block = p;
  source_id = block.source_id;
  fork_id = block.fork_id;
  height = block.height;
  prev = block.prev;
  deps = block.block_deps;
  forks_dep_heights = block.forks_dep_heights;
  payload = if block.is_custom then some block.payload else none;
}

module _ (fuel : ℕ) (parse : List ℕ → BlockContent)
    (valid_dependency : ReceiverState → BlockDep → Bool) where
  unfoldable pub check_content : ReceiverState → ℕ → Outcome ReceiverState
  unfolding is_fork prove_fork
  check_content state p =
      let block = state.blocks p in
      elim (parse block.payload) [
        | nop ↦ done state
        | custom ↦ done (put_block state p (record block { is_custom = true }))
        | fork_blame left right ↦
            (if valid_dependency state left && valid_dependency state right && is_fork left right
              then prove_fork state left right
              else set_ill fuel state (p ∷ []))
      ]

  unfoldable pub pre_deliver : ReceiverState → ℕ → Outcome ReceiverState
  unfolding check_content check_prev blame_source
  pre_deliver state p =
      let block = state.blocks p in
      if is_ill block
      then done state
      else (assert (is_ready block)
          >> (assert (block.pending_deps == 0)
              >> (assert block.in_db
                  >> (check_prev state block >>= λ verdict. elim verdict [
                    | fine ↦ check_content state p
                    | ill_block ↦ set_ill fuel state (p ∷ [])
                    | blaming ↦
                        (blame_source state block >>= λ blamed. set_ill fuel blamed (p ∷ []))
                  ]))))

  unfoldable pub deliver : ReceiverState → ℕ → Outcome ReceiverState
  unfolding notice_of notify_rev_deps
  deliver state p =
      let block = state.blocks p in
      let told = record state {
        blocks = put state.blocks p (record block { state = delivered });
        notices = notice_of p block ∷ state.notices;
      } in
      if is_ill block
      then done state
      else (assert (is_ready block)
          >> (assert (block.pending_deps == 0)
              >> (assert block.in_db
                  >> (notify_rev_deps told (told.blocks p) block.rev_deps >>= λ notified.
                      let cleared =
                        put_block notified p (record (notified.blocks p) { rev_deps = [] }) in
                      at cleared.sources block.source_id >>= λ source.
                      unwrap (block_delivered cleared.blocks fuel source block.height) >>= λ moved.
                      done (put_source cleared block.source_id moved cleared.receiver)))))

  unfoldable pub process : ReceiverState → ℕ → Outcome ReceiverState
  unfolding initialize_fork pre_deliver deliver
  process state p =
      let block = state.blocks p in
      if not (is_ready block)
      then done state
      else (assert (block.pending_deps == 0)
          >> (assert block.in_db
              >> (initialize_fork state p >>= λ forked.
                  pre_deliver forked p >>= λ checked. deliver checked p)))
