-- ===== src/Session/Round/Blocks.antt =====
-- What a step of a round keeps, and that a submitted block keeps the invariant (round.rs,
-- `apply_submitted_block_action`).
use ton_labs_node.Base.{
  ℕ, zero, suc, ◌<◌, ◌≡◌, refl, ◌∙◌, length, replicate, get_elem?, get_elem?-some, none, some, u32,
  Outcome, done, arith, Bool-cases, inl, inr, ◌≢◌, subst,
}
use ton_labs_node.Session.Description.{
  SessionDescription, ℤ, pos, negsuc, get_node_priority, candidate_id, get_source_public_key_hash,
}
use ton_labs_node.Session.Description.Priority.{IsSized, priority_turn}
use ton_labs_node.Session.SortedVector.{iter}
use ton_labs_node.Session.SortedVector.Order.{insert, insert-IsSorted, insert-All}
use ton_labs_node.Session.SortedVector.Push.{push-eq-insert}
use ton_labs_node.Session.SentBlock
use ton_labs_node.Session.SentBlock.{SentBlock, SentBlockPtr, skip_round_candidate_blockid}
use ton_labs_node.Session.BlockCandidate
use ton_labs_node.Session.BlockCandidate.{
  BlockCandidate, Signature, create_unapproved, check_block_is_approved_by,
}
use ton_labs_node.Session.BlockCandidate.Approvals.{create_unapproved-IsCandidate}
use ton_labs_node.Session.Round.{RoundState, check_block_is_sent_by}
use ton_labs_node.Session.Round.Actions.{
  RoundPool, is_negative, add_candidate, apply_submitted_block_action,
}
use ton_labs_node.Session.Round.Invariant.{IsConfigured, IsRoundCandidate, IsRound}

-- What every step of a round keeps: the round's number, and the locked block once there is one.
pub record Keeps (s t : RoundState) : Type 0 where
  pub number_kept : t.sequence_number ≡ s.sequence_number
  pub lock_kept : (b : SentBlockPtr) → s.precommitted_block ≡ some b → t.precommitted_block ≡ some b

-- A step that returns a round with the invariant and keeps what every step keeps.
abbrev pub StepsWell : SessionDescription → RoundState → Outcome RoundState → Type 0
StepsWell desc s o = (t : RoundState) × (o ≡ done t) × IsRound desc t × Keeps s t

-- A step that changes nothing.
pub unchanged :
    (desc : SessionDescription) (state : RoundState)
    → IsRound desc state
    → StepsWell desc state (done state)
unchanged desc state inv = (state, refl, inv, record { number_kept = refl; lock_kept = λ b e. e })

nothing_approved : (m i : ℕ) (g : Signature) → get_elem? (replicate m none) i ≡ some (some g) → ⊥
nothing_approved zero i g e = cc
nothing_approved (suc m) zero g e = cc
nothing_approved (suc m) (suc i) g e = nothing_approved m i g e

module _ (desc : SessionDescription) (sized : IsSized desc) where
  pub fresh-IsRoundCandidate :
      (n : ℕ) (block : SentBlockPtr)
      → ((b : SentBlock)
          → block ≡ some b
          → (b.id ≢ skip_round_candidate_blockid)
            × ((p : ℕ) × (get_node_priority desc b.source_id n ≡ done (pos p))))
      → IsRoundCandidate desc n (create_unapproved desc block)
  unfolding create_unapproved
  fresh-IsRoundCandidate n block proposed = record {
    entries = create_unapproved-IsCandidate desc block (omega arith);
    proposed = proposed;
    verified = λ i g e. absurd (nothing_approved (u32 (length desc.sources)) i g e);
  }

module _ (desc : SessionDescription) (sized : IsSized desc) (configured : IsConfigured desc)
    (pool : RoundPool) (state : RoundState) (inv : IsRound desc state) (src : ℕ)
    (known : src < length desc.sources) where
  -- A candidate is added, or replaces the one with its identifier.
  pub add_candidate-StepsWell :
      (candidate : BlockCandidate)
      → IsRoundCandidate desc state.sequence_number candidate
      → StepsWell desc state (add_candidate desc pool src state candidate)
  unfolding add_candidate
  add_candidate-StepsWell candidate h =
      let key = BlockCandidate.get_id in
      (
        record state { sent_blocks = some (insert key candidate (iter state.sent_blocks)) },
        rw (push-eq-insert key pool.candidate state.sent_blocks candidate inv.blocks_sorted) refl,
        record {
          firsts = inv.firsts;
          lasts = inv.lasts;
          blocks_sorted = insert-IsSorted key candidate (iter state.sent_blocks) inv.blocks_sorted;
          blocks =
              insert-All key (IsRoundCandidate desc state.sequence_number) candidate
                (iter state.sent_blocks) h inv.blocks;
          attempts_sorted = inv.attempts_sorted;
          attempts_kept = inv.attempts_kept;
          signed = inv.signed;
          verified = inv.verified;
          locked = inv.locked;
        },
        record { number_kept = refl; lock_kept = λ b e. e },
      )

  -- A validator that may propose in the round and has not yet done so adds its block.
  pub apply_submitted-StepsWell :
      (root file collated : ℕ)
      → StepsWell desc state (apply_submitted_block_action desc pool src state root file collated)
  unfolding apply_submitted_block_action is_negative SentBlock.create candidate_id
      get_source_public_key_hash
  apply_submitted-StepsWell root file collated =
      go _ (priority_turn desc sized state.sequence_number src known)
    where
      go :
          (q : ℤ)
          → get_node_priority desc src state.sequence_number ≡ done q
          → StepsWell desc state
              (apply_submitted_block_action desc pool src state root file collated)
      go (negsuc k) e = rw e (unchanged desc state inv)
      go (pos p) e = elim (Bool-cases (check_block_is_sent_by state src)) [
        | inl t ↦ rw (e, t) (unchanged desc state inv)
        | inr t ↦
            let (source, q) = get_elem?-some desc.sources src known in
            let id = desc.crypto.candidate_hash source.id root file collated in
            let block : SentBlockPtr = some (record {
              id = id;
              source_id = src;
              root_hash = root;
              file_hash = file;
              collated_data_file_hash = collated;
            }) in
            rw (e, t, q)
              (add_candidate-StepsWell (create_unapproved desc block) (
                fresh-IsRoundCandidate desc sized state.sequence_number block (λ b r.
                  let i : id ≡ b.id = cc in
                  let o : src ≡ b.source_id = cc in
                  (
                    (λ z. configured.named source.id root file collated (i ∙ z)),
                    (
                      p,
                      subst (λ j. get_node_priority desc j state.sequence_number ≡ done (pos p)) o
                          e,
                    ),
                  ))))
      ]
