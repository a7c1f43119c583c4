-- ===== src/Session/OldRound/Invariant.antt =====
-- What holds of an old round, and that every action keeps it without a panic (old_round.rs).
use ton_labs_node.Base.{
  ℕ, ◌<◌, ◌≡◌, refl, sym, ap, ◌∙◌, Bool, true, false, [], ◌∷◌, length, set, get_elem?,
  get_elem?-some, get_elem?-set, length-set, leb, ◌==◌, none, some, is_some, Outcome, done, arith,
  Bool-cases, ◌≢◌, inl, inr, subst,
}
use ton_labs_node.Session.Description.{SessionDescription, weigh, check_approve_signature}
use ton_labs_node.Session.Description.Weights.{IsWeighed, weigh_mono, weigh-Passes}
use ton_labs_node.Session.Vector.{change}
use ton_labs_node.Session.SortedVector.{iter}
use ton_labs_node.Session.SortedVector.Order.{find-All}
use ton_labs_node.Session.SentBlock
use ton_labs_node.Session.SentBlock.{SentBlock, SentBlockPtr, skip_round_candidate_blockid}
use ton_labs_node.Session.BlockCandidate
use ton_labs_node.Session.BlockCandidate.{BlockCandidate, Signature}
use ton_labs_node.Session.BlockCandidate.Approvals.{some_more}
use ton_labs_node.Session.Message.{Message}
use ton_labs_node.Session.Round.{RoundState, check_block_is_signed}
use ton_labs_node.Session.Round.Actions.{signature_accepted}
use ton_labs_node.Session.Round.Invariant.{IsConfigured, IsRound, IsRoundCandidate, ApprovedWith}
use ton_labs_node.Session.Round.Voting.{candidate_in-find}
use ton_labs_node.Session.Round.Outcomes.{Passes-signature}
use ton_labs_node.Session.Round.Signing.{accepted_total}
use ton_labs_node.Session.Round.Sourced.{IsSourced, locked-Candidate}
use ton_labs_node.Session.OldRound.{
  OldRoundState, get_block_id, approval_accepted, add_approval, add_signature,
  check_block_is_approved_by, check_block_is_signed_by, apply_approved_block_action,
  apply_committed_block_action, apply_action, create_from_round,
}

module _ (desc : SessionDescription) where
  -- An approval of the block with the identifier, by the validator `i`.
  abbrev pub ApprovedFor : ℕ → ℕ → Signature → Type 0
  ApprovedFor id i g =
      (b : SentBlockPtr) × (SentBlock.get_id b ≡ id) × (approval_accepted desc i b g id ≡ done true)

  -- The old round with the number `n`: an entry for each validator, signatures that verify for the
  -- committed block and reach the cutoff, and approvals that verify for a block of its identifier.
  pub record IsOldRound (n : ℕ) (state : OldRoundState) : Type 0 where
    pub numbered : state.sequence_number ≡ n
    pub entries : length state.signatures ≡ length desc.sources
    pub approvals : length state.approve_signatures ≡ length desc.sources
    pub quorum : weigh is_some desc state.signatures ≡ done true
    pub verified :
        (i : ℕ) (g : Signature)
        → get_elem? state.signatures i ≡ some (some g)
        → signature_accepted desc i state.block g (get_block_id state) ≡ done true
    pub approved :
        (i : ℕ) (g : Signature)
        → get_elem? state.approve_signatures i ≡ some (some g)
        → ApprovedFor (get_block_id state) i g

  -- A step that returns an old round for the same block.
  abbrev pub StaysCommitted : ℕ → OldRoundState → Outcome OldRoundState → Type 0
  StaysCommitted n s o = (t : OldRoundState) × (o ≡ done t) × IsOldRound n t × (t.block ≡ s.block)

module _ (desc : SessionDescription) (weighed : IsWeighed desc) (src : ℕ)
    (known : src < length desc.sources) (n : ℕ) (state : OldRoundState)
    (inv : IsOldRound desc n state) where
  same : StaysCommitted desc n state (done state)
  same = (state, refl, inv, refl)

  add_signature-StaysCommitted :
      (g : Signature)
      → signature_accepted desc src state.block g (get_block_id state) ≡ done true
      → StaysCommitted desc n state (add_signature desc src state g)
  unfolding add_signature change
  add_signature-StaysCommitted g valid =
      let (o, e) = get_elem?-some state.signatures src (omega (arith, inv.entries)) in
      let b : leb src (length state.signatures) ≡ true = ground (arith, inv.entries) in
      let l = length-set state.signatures src (some g) ∙ inv.entries in
      (
        record state { signatures = set state.signatures src (some g) },
        rw (b, e) refl,
        record {
          numbered = inv.numbered;
          entries = l;
          approvals = inv.approvals;
          quorum =
              weigh_mono is_some is_some desc state.signatures _ weighed
                (omega (arith, inv.entries)) (omega arith) (some_more state.signatures src g)
                inv.quorum;
          verified = λ i f q. elim (get_elem?-set state.signatures src i (some g) (some f) q) [
            | inr r ↦ inv.verified i f r
            | inl (s, r) ↦
                let k : g ≡ f = cc in
                subst
                  (λ j. signature_accepted desc j state.block f (get_block_id state) ≡ done true) s
                  (subst
                    (λ x.
                      signature_accepted desc src state.block x (get_block_id state) ≡ done true)
                    k valid)
          ];
          approved = inv.approved;
        },
        refl,
      )

  add_approval-StaysCommitted :
      (g : Signature)
      → approval_accepted desc src state.block g (get_block_id state) ≡ done true
      → StaysCommitted desc n state (add_approval desc src state g)
  unfolding add_approval change
  add_approval-StaysCommitted g valid =
      let (o, e) = get_elem?-some state.approve_signatures src (omega (arith, inv.approvals)) in
      let b : leb src (length state.approve_signatures) ≡ true = ground (arith, inv.approvals) in
      (
        record state { approve_signatures = set state.approve_signatures src (some g) },
        rw (b, e) refl,
        record {
          numbered = inv.numbered;
          entries = inv.entries;
          approvals = length-set state.approve_signatures src (some g) ∙ inv.approvals;
          quorum = inv.quorum;
          verified = inv.verified;
          approved = λ i f q.
              elim (get_elem?-set state.approve_signatures src i (some g) (some f) q) [
                | inr r ↦ inv.approved i f r
                | inl (s, r) ↦
                    let k : g ≡ f = cc in
                    subst (λ j. ApprovedFor desc (get_block_id state) j f) s
                      (subst (ApprovedFor desc (get_block_id state) src) k
                        (state.block, refl, valid))
              ];
        },
        refl,
      )

  -- The check of an approval returns.
  approval_total :
      (block : SentBlockPtr) (g : Signature)
      → (b : Bool) × (approval_accepted desc src block g (SentBlock.get_id block) ≡ done b)
  unfolding approval_accepted check_approve_signature
  approval_total none g = (elim g [ [] ↦ true | x ∷ rest ↦ false ], refl)
  approval_total (some block) g =
      let (source, r) = get_elem?-some desc.sources src known in
      elim (Bool-cases (block.id == skip_round_candidate_blockid)) [
        | inl t ↦ (elim g [ [] ↦ true | x ∷ rest ↦ false ], rw t refl)
        | inr t ↦ (
          desc.crypto.verify_approve source.public_key block.root_hash block.file_hash g,
          rw (t, r) refl,
        )
      ]

  approved-StaysCommitted :
      (k : ℕ) (g : Signature)
      → StaysCommitted desc n state (apply_approved_block_action desc src state k g)
  unfolding apply_approved_block_action check_block_is_approved_by
  approved-StaysCommitted k g = elim (Bool-cases (k == get_block_id state)) [
    | inr t ↦ rw t same
    | inl t ↦
        let id : get_block_id state ≡ k = ground arith in
        let (o, q) = get_elem?-some state.approve_signatures src (omega (arith, inv.approvals)) in
        let (accepted, a) = approval_total state.block g in
        let c = subst (λ j. approval_accepted desc src state.block g j ≡ done accepted) id a in
        elim (Bool-cases (is_some o)) [
          | inl u ↦ rw (t, q, u) same
          | inr u ↦ elim (Bool-cases accepted) [
            | inl v ↦ rw (t, q, u, c, v) (add_approval-StaysCommitted g (a ∙ ap done v))
            | inr v ↦ rw (t, q, u, c, v) same
          ]
        ]
  ]

  committed-StaysCommitted :
      (k : ℕ) (g : Signature)
      → StaysCommitted desc n state (apply_committed_block_action desc src state k g)
  unfolding apply_committed_block_action check_block_is_signed_by
  committed-StaysCommitted k g = elim (Bool-cases (k == get_block_id state)) [
    | inr t ↦ rw t same
    | inl t ↦
        let id : get_block_id state ≡ k = ground arith in
        let (o, q) = get_elem?-some state.signatures src (omega (arith, inv.entries)) in
        let (accepted, a) = accepted_total desc src known state.block g in
        let c = subst (λ j. signature_accepted desc src state.block g j ≡ done accepted) id a in
        elim (Bool-cases accepted) [
          | inr v ↦ rw (t, c, v) same
          | inl v ↦ elim (Bool-cases (is_some o)) [
            | inl u ↦ rw (t, c, v, q, u) same
            | inr u ↦ rw (t, c, v, q, u) (add_signature-StaysCommitted g (a ∙ ap done v))
          ]
        ]
  ]

  -- Every message of a known validator keeps an old round and its block, without a panic.
  pub apply_action-StaysCommitted :
      (message : Message) → StaysCommitted desc n state (apply_action desc src state message)
  unfolding apply_action
  apply_action-StaysCommitted (Message.approved_block _ k g) = approved-StaysCommitted k g
  apply_action-StaysCommitted (Message.commit _ k g) = committed-StaysCommitted k g
  apply_action-StaysCommitted (Message.submitted_block _ _ _ _) = same
  apply_action-StaysCommitted (Message.rejected_block _ _ _) = same
  apply_action-StaysCommitted (Message.vote _ _ _) = same
  apply_action-StaysCommitted (Message.precommit _ _ _) = same
  apply_action-StaysCommitted (Message.vote_for _ _ _) = same
  apply_action-StaysCommitted (Message.empty _ _) = same

-- The approvals of a candidate of a round verify for its block.
pub approved_of :
    (desc : SessionDescription) (n : ℕ) (c : BlockCandidate)
    → IsRoundCandidate desc n c
    → (i : ℕ) (g : Signature) → get_elem? c.approved_by i ≡ some (some g)
    → ApprovedFor desc (BlockCandidate.get_id c) i g
approved_of desc n c h i g e = go c.block (h.verified i g e) (λ b q. (h.proposed b q).0)
  where
    go :
        (o : SentBlockPtr)
        → ApprovedWith desc o i g
        → ((b : SentBlock) → o ≡ some b → b.id ≢ skip_round_candidate_blockid)
        → ApprovedFor desc (SentBlock.get_id o) i g
    go none a k = (none, refl, rw a (unfold approval_accepted in refl))
    go (some b) a k =
        let f : (b.id == skip_round_candidate_blockid) ≡ false = ground (arith, k b refl) in
        (some b, refl, unfold approval_accepted in rw f a)

module _ (desc : SessionDescription) (weighed : IsWeighed desc) (configured : IsConfigured desc)
    (state : RoundState) (inv : IsRound desc state) (sourced : IsSourced state) where
  -- A round whose signatures reach the cutoff becomes an old round for its locked block, without a
  -- panic.
  pub create_from_round-IsOldRound :
      check_block_is_signed desc state ≡ done true
      → (old : OldRoundState) × (create_from_round desc state ≡ done old)
        × IsOldRound desc state.sequence_number old
        × (state.precommitted_block ≡ some old.block)
  unfolding create_from_round check_block_is_signed
  create_from_round-IsOldRound signed =
      let (i, g, e) =
        Passes-signature state.signatures
          (weigh-Passes is_some desc state.signatures weighed (omega (arith, inv.signed)) signed) in
      let (b, q, _) = inv.verified i g e in
      let (c, f) = locked-Candidate desc state inv sourced b q in
      let (h, k) =
        find-All BlockCandidate.get_id (IsRoundCandidate desc state.sequence_number)
          (SentBlock.get_id b) (iter state.sent_blocks) c inv.blocks f in
      (
        record {
          sequence_number = state.sequence_number;
          block = b;
          signatures = state.signatures;
          approve_signatures = c.approved_by;
        },
        rw (q, signed, candidate_in-find (iter state.sent_blocks) (SentBlock.get_id b), f) refl,
        record {
          numbered = refl;
          entries = inv.signed;
          approvals = h.entries.entries;
          quorum = signed;
          verified = λ j x y.
              let (d, p, w) = inv.verified j x y in
              let z : d ≡ b = (let r : some d ≡ some b = sym p ∙ q in cc) in
              subst (λ o. signature_accepted desc j o x (SentBlock.get_id o) ≡ done true) z w;
          approved = λ j x y.
              subst (λ id. ApprovedFor desc id j x) k
                (approved_of desc state.sequence_number c h j x y);
        },
        q,
      )
