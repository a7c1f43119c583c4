-- ===== src/Catchain/Source.antt =====
-- catchain/src/receiver_source.rs: what a node knows of the chain of one source. Keys, statistics and the serialised form of a fork proof are
-- left out.
pub mod Heights
pub mod Blaming
pub mod Examples
use ton_labs_node.Base.{
  ℕ, zero, suc, ◌+◌, ◌-◌, Bool, true, false, not, ◌&&◌, ◌||◌, List, [], ◌∷◌, ◌++◌, replicate,
  length, set, get_elem?, ltb, leb, ◌==◌, if◌then◌else◌, Option, none, some, is_some, Outcome, done,
  panic, at, assert, ◌>>=◌, ◌>>◌,
}
use ton_labs_node.Session.SortedVector.Order.{find, insert}
use ton_labs_node.Catchain.Block.{
  ReceivedBlock, is_initialized, is_delivered, export_tl_dep, BlockDataFork,
}

pub record ReceiverSource : Type 0 where
  pub id : ℕ
  pub blamed : Bool
  pub blocks : List (ℕ × ℕ)
  pub delivered_height : ℕ
  pub received_height : ℕ
  pub fork_proof : Option BlockDataFork
  pub fork_ids : List ℕ
  pub blamed_heights : List ℕ

-- What a source changes in the receiver that it belongs to: the number of forks, the sources that the
-- listener is told of as blamed, and the fork proofs that wait to be sent in a block.
pub record Receiver : Type 0 where
  pub total_forks : ℕ
  pub blames : List ℕ
  pub pending_proofs : List BlockDataFork

-- `ReceiverSourceImpl::new`
unfoldable pub new : ℕ → ReceiverSource
new id = record {
  id = id;
  blamed = false;
  blocks = [];
  delivered_height = 0;
  received_height = 0;
  fork_proof = none;
  fork_ids = [];
  blamed_heights = [];
}

abbrev pub is_fork_found : ReceiverSource → Bool
is_fork_found source = is_some source.fork_proof

abbrev pub height_of : ℕ × ℕ → ℕ
height_of entry = entry.0

-- The map of heights is a list in the order of the heights.
unfoldable pub get_block : ReceiverSource → ℕ → Option ℕ
get_block source height = elim (find height_of height source.blocks) [
  | none ↦ none
  | some (h, block) ↦ some block
]

unfoldable pub mark_as_blamed : ReceiverSource → Receiver → ReceiverSource × Receiver
mark_as_blamed source receiver = if source.blamed then (source, receiver) else (
  record source { blamed = true; blocks = []; delivered_height = 0 },
  record receiver { blames = receiver.blames ++ source.id ∷ [] },
)

unfoldable pub set_fork_proof : ReceiverSource → BlockDataFork → ReceiverSource
set_fork_proof source fork_proof =
    if is_fork_found source then source else record source { fork_proof = some fork_proof }

-- `add_fork` of the receiver
unfoldable pub next_fork : Receiver → Receiver × ℕ
next_fork receiver =
    let fork_id = receiver.total_forks + 1 in (record receiver { total_forks = fork_id }, fork_id)

unfoldable pub add_fork : ReceiverSource → Receiver → Outcome (ReceiverSource × Receiver × ℕ)
unfolding mark_as_blamed next_fork
add_fork source receiver =
    let (marked, told) =
      (if ltb 0 (length source.fork_ids)
        then mark_as_blamed source receiver
        else (source, receiver)) in
    let (counted, fork_id) = next_fork told in
    let added = record marked { fork_ids = marked.fork_ids ++ fork_id ∷ [] } in
    assert (ltb 0 fork_id)
    >> (assert (not (ltb 1 (length added.fork_ids)) || added.blamed)
        >> done (added, counted, fork_id))

-- `if len <= fork { resize(fork + 1, 0) }`
unfoldable pub resized : List ℕ → ℕ → List ℕ
resized heights fork = heights ++ replicate (fork + 1 - length heights) 0

-- The least height at which a fork is blamed; 0 stands for none.
unfoldable pub blamed_at : List ℕ → ℕ → ℕ → Outcome (List ℕ)
blamed_at heights fork height = at heights fork >>= λ old.
    done (if old == 0 || ltb height old then set heights fork height else heights)

unfoldable pub blame : ReceiverSource → ℕ → ℕ → Receiver → Outcome (ReceiverSource × Receiver)
unfolding mark_as_blamed resized blamed_at
blame source fork height receiver =
    let (marked, told) = mark_as_blamed source receiver in
    blamed_at (resized marked.blamed_heights fork) fork height >>= λ heights.
    done (record marked { blamed_heights = heights }, told)

unfoldable pub has_undelivered : ReceiverSource → Bool
has_undelivered source = ltb source.delivered_height source.received_height

module _ (store : ℕ → ReceivedBlock) where
  -- A second block at one height is a fork.
  unfoldable pub fork_found :
      ReceiverSource
      → Receiver
      → ReceivedBlock
      → ReceivedBlock
      → Outcome (ReceiverSource × Receiver)
  unfolding set_fork_proof mark_as_blamed
  fork_found source receiver block existing =
      let fork : BlockDataFork = record {
        left = export_tl_dep block;
        right = export_tl_dep existing;
      } in
      assert (not (block.hash == existing.hash))
      >> done (
          mark_as_blamed (set_fork_proof source fork)
            (record receiver { pending_proofs = receiver.pending_proofs ++ fork ∷ [] }))

  unfoldable pub process_new_block :
      ReceiverSource → ℕ → Receiver → Outcome (ReceiverSource × Receiver)
  unfolding fork_found get_block
  process_new_block source pointer receiver =
      let block = store pointer in
      if is_fork_found source
      then done (source, receiver)
      else (assert (block.source_id == source.id) >> elim (get_block source block.height) [
        | some existing ↦ fork_found source receiver block (store existing)
        | none ↦ done (
          record source { blocks = insert height_of (block.height, pointer) source.blocks },
          receiver,
        )
      ])

  last_height : List (ℕ × ℕ) → Option ℕ
  last_height [] = none
  last_height ((h, block) ∷ blocks) = elim (last_height blocks) [
    | none ↦ some (store block).height
    | some last ↦ some last
  ]

  has_unreceived : ReceiverSource → Outcome Bool
  unfolding last_height
  has_unreceived source = if source.blamed then done true else elim (last_height source.blocks) [
    | none ↦ done false
    | some last ↦
        (assert (leb source.received_height last) >> done (ltb source.received_height last))
  ]

  -- Is there a block at the height that passes the test?
  unfoldable pub ready : (ReceivedBlock → Bool) → ReceiverSource → ℕ → Bool
  unfolding get_block
  ready test source height = elim (get_block source height) [
    | none ↦ false
    | some pointer ↦ test (store pointer)
  ]

  -- The loops of `block_received` and `block_delivered`: how far the blocks above a height pass.
  -- Nothing is returned when the fuel runs out.
  unfoldable pub advanced : (ReceivedBlock → Bool) → ReceiverSource → ℕ → ℕ → Option ℕ
  unfolding ready
  advanced test source zero height = none
  advanced test source (suc fuel) height =
      let further = advanced test source fuel (height + 1) in
      if ready test source (height + 1) then further else some height

  unfoldable pub block_received : ℕ → ReceiverSource → ℕ → Option ReceiverSource
  unfolding advanced
  block_received fuel source height =
      if source.blamed
      then some source
      else elim (advanced is_initialized source fuel
          (if source.received_height + 1 == height then height else source.received_height)) [
            | none ↦ none
            | some reached ↦ some (record source { received_height = reached })
          ]

  unfoldable pub block_delivered : ℕ → ReceiverSource → ℕ → Option ReceiverSource
  unfolding advanced
  block_delivered fuel source height =
      if source.blamed
      then some source
      else elim (advanced is_delivered source fuel
          (if source.delivered_height + 1 == height then height else source.delivered_height)) [
            | none ↦ none
            | some reached ↦ some (record source { delivered_height = reached })
          ]
