-- ===== src/Session/BlockCandidate.antt =====
-- validator-session/src/block_candidate.rs: a proposed block and the signatures of the validators
-- that approved it. A signature is the list of its bytes.
pub mod Approvals
use ton_labs_node.Base.{
  ℕ, Bool, true, false, List, [], ◌∷◌, replicate, ◌==◌, ltb, if◌then◌else◌, Option, none, some,
  is_some, Outcome, done, panic, at, assert, ◌>>=◌, ◌>>◌,
}
use ton_labs_node.Session.Description.{SessionDescription, get_total_nodes, weigh}
use ton_labs_node.Session.Merge.{Same, option_same, merge_option}
use ton_labs_node.Session.Vector.{change, merge_impl}
use ton_labs_node.Session.SentBlock
use ton_labs_node.Session.SentBlock.{SentBlockPtr}

abbrev pub Signature : Type 0
Signature = List ℕ

-- `<` on byte vectors: the lexicographic order.
unfoldable pub lex_lt : Signature → Signature → Bool
lex_lt [] [] = false
lex_lt [] (y ∷ ys) = true
lex_lt (x ∷ xs) [] = false
lex_lt (x ∷ xs) (y ∷ ys) =
    let rest = lex_lt xs ys in if ltb x y then true else if ltb y x then false else rest

-- `impl Merge for BlockCandidateSignature`
pub merge_signature : Signature → Signature → Outcome Signature
unfolding lex_lt
merge_signature left right = done (if lex_lt left right then left else right)

pub record BlockCandidate : Type 0 where
  pub block : SentBlockPtr
  pub approved_by : List (Option Signature)

abbrev pub get_id : BlockCandidate → ℕ
get_id candidate = SentBlock.get_id candidate.block

abbrev pub get_source_index : BlockCandidate → ℕ
get_source_index candidate = SentBlock.get_source_index candidate.block

abbrev pub check_block_is_approved_by : BlockCandidate → ℕ → Outcome Bool
check_block_is_approved_by candidate source_index =
    at candidate.approved_by source_index >>= λ signature. done (is_some signature)

unfoldable pub check_block_is_approved : SessionDescription → BlockCandidate → Outcome Bool
check_block_is_approved desc candidate = weigh is_some desc candidate.approved_by

-- `BlockCandidateWrapper::push`
unfoldable pub push : BlockCandidate → ℕ → Option Signature → Outcome BlockCandidate
unfolding change
push candidate src_idx signature = do
  has_signature ← check_block_is_approved_by candidate src_idx
  if has_signature then done candidate else do
    approved_by ← change candidate.approved_by src_idx signature
    done (record candidate { approved_by = approved_by })

module _ (pool : Same Signature) where
  -- The merge of two signature vectors.
  pub merge_signatures :
      List (Option Signature) → List (Option Signature) → Outcome (List (Option Signature))
  merge_signatures = merge_impl (option_same pool) false (merge_option pool merge_signature)

  -- `impl Merge for BlockCandidate`
  pub merge : BlockCandidate → BlockCandidate → Outcome BlockCandidate
  merge left right = do
    assert (get_id left == get_id right)
    approved_by ← merge_signatures left.approved_by right.approved_by
    done (record left { approved_by = approved_by })

-- `BlockCandidateImpl::create_unapproved`
unfoldable pub create_unapproved : SessionDescription → SentBlockPtr → BlockCandidate
create_unapproved desc block = record {
  block = block;
  approved_by = replicate (get_total_nodes desc) none;
}
