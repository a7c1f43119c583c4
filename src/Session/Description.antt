-- ===== src/Session/Description.antt =====
-- validator-session/src/session_description.rs: the options, the validators with their weights, and
-- what a round derives from them. A duration is its number of milliseconds.
pub mod Weights
pub mod Priority
pub mod Sources
pub mod Examples
use ton_labs_node.Base.{
  ℕ, suc, ◌+◌, ◌-◌, ◌*◌, ◌/◌, ◌%◌, ◌^◌, ◌<◌, ◌≡◌, Bool, true, false, ◌&&◌, List, [], ◌∷◌, map, ltb,
  leb, ◌==◌, if◌then◌else◌, u32, u64, length, Option, none, some, Outcome, done, panic, at, ◌>>=◌,
  ◌>>◌, assert, unwrap,
}

-- The signed results of `get_node_priority`: `negsuc n` is -(n + 1).
pub data ℤ : Type 0 where
  pos : ℕ → ℤ
  negsuc : ℕ → ℤ

-- `SessionOptions`: the options that the session's state depends on.
pub record SessionOptions : Type 0 where
  pub round_candidates : ℕ
  pub next_candidate_delay : ℕ
  pub round_attempt_duration : ℕ
  pub max_round_attempts : ℕ

-- `impl Default for SessionOptions`
abbrev pub default_options : SessionOptions
default_options = record {
  round_candidates = 3;
  next_candidate_delay = 2000;
  round_attempt_duration = 16000;
  max_round_attempts = 4;
}

pub record SessionNode : Type 0 where
  pub public_key : ℕ
  pub adnl_id : ℕ
  pub weight : ℕ

pub record Source : Type 0 where
  pub id : ℕ
  pub public_key : ℕ
  pub adnl_id : ℕ
  pub weight : ℕ

-- What other crates compute: the hash of a public key, the hash of a serialised candidate
-- identifier, and the two checks of a signature.
pub record Crypto : Type 0 where
  pub key_id : ℕ → ℕ
  pub candidate_hash : ℕ → ℕ → ℕ → ℕ → ℕ
  pub verify_block : ℕ → ℕ → ℕ → List ℕ → Bool
  pub verify_approve : ℕ → ℕ → ℕ → List ℕ → Bool

pub record SessionDescription : Type 0 where
  pub options : SessionOptions
  pub sources : List Source
  pub rev_sources : List (ℕ × ℕ)
  pub cutoff_weight : ℕ
  pub total_weight : ℕ
  pub self_idx : ℕ
  pub crypto : Crypto

-- A hash map as an association list, the latest entry first.
lookup : ℕ → List (ℕ × ℕ) → Option ℕ
lookup k [] = none
lookup k ((j, v) ∷ m) = if j == k then some v else lookup k m

source_of : Crypto → SessionNode → Source
source_of c node = record {
  id = c.key_id node.public_key;
  public_key = node.public_key;
  adnl_id = node.adnl_id;
  weight = node.weight;
}

-- The loop of `new` over the nodes, one result at a time.
rev_sources_from : Crypto → ℕ → List (ℕ × ℕ) → List SessionNode → List (ℕ × ℕ)
rev_sources_from c node_index rev [] = rev
rev_sources_from c node_index rev (node ∷ nodes) =
    rev_sources_from c (node_index + 1) ((c.key_id node.public_key, u32 node_index) ∷ rev) nodes

total_weight_from : ℕ → List SessionNode → ℕ
total_weight_from total [] = total
total_weight_from total (node ∷ nodes) = total_weight_from (u64 (total + node.weight)) nodes

cutoff_of : ℕ → ℕ
cutoff_of total = u64 (u64 (total * 2) / 3 + 1)

-- `SessionDescriptionImpl::new`
pub new : SessionOptions → Crypto → List SessionNode → ℕ → Outcome SessionDescription
unfolding lookup source_of rev_sources_from total_weight_from cutoff_of
new options c nodes local_id = do
  let total_weight = total_weight_from 0 nodes
  let rev_sources = rev_sources_from c 0 [] nodes
  self_idx ← unwrap (lookup local_id rev_sources)
  done (record {
    options = options;
    sources = map (source_of c) nodes;
    rev_sources = rev_sources;
    cutoff_weight = cutoff_of total_weight;
    total_weight = total_weight;
    self_idx = self_idx;
    crypto = c;
  })

module _ (desc : SessionDescription) where
  open desc use {options, sources, rev_sources, cutoff_weight, crypto}

  abbrev pub get_total_nodes : ℕ
  get_total_nodes = u32 (length sources)

  unfoldable pub get_source_public_key_hash : ℕ → Outcome ℕ
  get_source_public_key_hash src_idx = do source ← at sources src_idx; done source.id

  pub get_source_index : ℕ → Outcome ℕ
  unfolding lookup
  get_source_index public_key_hash = unwrap (lookup public_key_hash rev_sources)

  unfoldable pub get_node_priority : ℕ → ℕ → Outcome ℤ
  get_node_priority src_idx round = do
    assert (ltb 0 get_total_nodes)
    let start = round % get_total_nodes
    let place = if ltb src_idx start then u32 (src_idx + get_total_nodes) else src_idx
    done (if ltb (place - start) options.round_candidates then pos (place - start) else negsuc 0)

  -- `round_candidates - 1` on a `u32`
  abbrev pub get_max_priority : ℕ
  get_max_priority = u32 (options.round_candidates + 4294967295)

  unfoldable pub get_vote_for_author : ℕ → Outcome ℕ
  get_vote_for_author attempt = do assert (ltb 0 get_total_nodes); done (attempt % get_total_nodes)

  -- The upper half of a time stamp.
  get_unixtime : ℕ → ℕ
  get_unixtime ts = u32 (ts / 4294967296)

  get_attempt_sequence_number : ℕ → Outcome ℕ
  unfolding get_unixtime
  get_attempt_sequence_number ts = do
    let secs = u32 (options.round_attempt_duration / 1000)
    assert (ltb 0 secs)
    done (get_unixtime ts / secs)

  get_attempt_start_at : ℕ → ℕ
  get_attempt_start_at attempt = attempt * options.round_attempt_duration

  get_delay : ℕ → ℕ
  get_delay priority =
      (if ltb (length sources) 5 then u32 (priority + 1) else priority)
      * options.next_candidate_delay

  get_empty_block_delay : ℕ
  unfolding get_delay
  get_empty_block_delay =
      let delay = get_delay (u32 (get_max_priority + 1)) in if ltb delay 1000 then 1000 else delay

  unfoldable pub candidate_id : ℕ → ℕ → ℕ → ℕ → Outcome ℕ
  unfolding get_source_public_key_hash
  candidate_id src_idx root_hash file_hash collated_data_file_hash = do
    id ← get_source_public_key_hash src_idx
    done (crypto.candidate_hash id root_hash file_hash collated_data_file_hash)

  unfoldable pub check_signature : ℕ → ℕ → ℕ → List ℕ → Outcome Bool
  check_signature root_hash file_hash src_idx signature = do
    source ← at sources src_idx
    done (crypto.verify_block source.public_key root_hash file_hash signature)

  unfoldable pub check_approve_signature : ℕ → ℕ → ℕ → List ℕ → Outcome Bool
  check_approve_signature root_hash file_hash src_idx signature = do
    source ← at sources src_idx
    done (crypto.verify_approve source.public_key root_hash file_hash signature)

-- The loop that votes, approvals, precommits and signatures share: it adds the weights of the
-- validators whose entry passes the test, and stops when they reach the cutoff.
module _ {ℓ} {A : Type ℓ} (test : A → Bool) (cutoff : ℕ) where
  pub weigh_from : ℕ → List Source → List A → Outcome Bool
  weigh_from weight [] entries = done false
  weigh_from weight (s ∷ sources) [] = panic
  weigh_from weight (s ∷ sources) (x ∷ entries) =
      let added = u64 (weight + s.weight) in
      let rest = weigh_from (if test x then added else weight) sources entries in
      if test x && leb cutoff added then done true else rest

unfoldable pub weigh {ℓ} : {A : Type ℓ} → (A → Bool) → SessionDescription → List A → Outcome Bool
unfolding weigh_from
weigh test desc entries = weigh_from test desc.cutoff_weight 0 desc.sources entries
