-- ===== src/Session/Round/Approving.antt =====
-- An approval keeps the invariant of a round (round.rs, `apply_approved_block_action`).
use ton_labs_node.Base.{
  ℕ, ◌<◌, ◌≡◌, refl, sym, ap, ◌∙◌, Bool, true, false, List, [], ◌∷◌, length, set, get_elem?,
  get_elem?-some, get_elem?-set_self, get_elem?-set_ne, ◌==◌, if◌then◌else◌, Option, none, some,
  is_some, All, done, unwrap, arith, Bool-cases, Option-cases, inl, inr, ◌≢◌, subst,
}
use ton_labs_node.Session.Description.{SessionDescription, check_approve_signature}
use ton_labs_node.Session.Description.Priority.{IsSized}
use ton_labs_node.Session.SortedVector.{iter}
use ton_labs_node.Session.SortedVector.Order.{find-All}
use ton_labs_node.Session.SentBlock
use ton_labs_node.Session.SentBlock.{SentBlock, SentBlockPtr, skip_round_candidate_blockid}
use ton_labs_node.Session.BlockCandidate
use ton_labs_node.Session.BlockCandidate.{
  BlockCandidate, Signature, create_unapproved, check_block_is_approved_by,
}
use ton_labs_node.Session.BlockCandidate.Approvals.{
  with_approval, with_approval-IsCandidate, push-lem,
}
use ton_labs_node.Session.Round.{RoundState, get_block}
use ton_labs_node.Session.Round.Actions.{
  RoundPool, approved_same_source, approve, approve_skip, approve_block,
  apply_approved_block_action,
}
use ton_labs_node.Session.Round.Invariant.{IsConfigured, ApprovedWith, IsRoundCandidate, IsRound}
use ton_labs_node.Session.Round.Voting.{candidate_in-find}
use ton_labs_node.Session.Round.Blocks.{
  StepsWell, unchanged, add_candidate-StepsWell, fresh-IsRoundCandidate,
}

module _ (desc : SessionDescription) (sized : IsSized desc) (configured : IsConfigured desc)
    (pool : RoundPool) (state : RoundState) (inv : IsRound desc state) (src : ℕ)
    (known : src < length desc.sources) where
  -- An approval with a signature that the block takes.
  approve-StepsWell :
      (candidate : BlockCandidate)
      → IsRoundCandidate desc state.sequence_number candidate
      → (g : Signature) → ApprovedWith desc candidate.block src g
      → StepsWell desc state (approve desc pool src state candidate g)
  unfolding approve
  approve-StepsWell candidate h g approved =
      let (o, e) = get_elem?-some candidate.approved_by src (omega (arith, h.entries.entries)) in
      elim (Bool-cases (is_some o)) [
        | inl t ↦
            rw (push-lem desc candidate h.entries src known g, e, t)
              (add_candidate-StepsWell desc sized configured pool state inv src known candidate h)
        | inr t ↦
            rw (push-lem desc candidate h.entries src known g, e, t)
              (add_candidate-StepsWell desc sized configured pool state inv src known
                (with_approval candidate src g)
                (record {
                  entries = with_approval-IsCandidate desc candidate h.entries src known g;
                  proposed = h.proposed;
                  verified = λ i f q. elim (Bool-cases (src == i)) [
                    | inl u ↦
                        let s : src ≡ i = ground arith in
                        let r : some (some g) ≡ some (some f) =
                          sym (
                            get_elem?-set_self candidate.approved_by src (some g)
                              (omega (arith, h.entries.entries)))
                          ∙ subst
                              (λ j.
                                get_elem? (set candidate.approved_by src (some g)) j
                                ≡ some (some f))
                              (sym s) q in
                        let k : g ≡ f = cc in
                        subst (λ j. ApprovedWith desc candidate.block j f) s
                          (subst (ApprovedWith desc candidate.block src) k approved)
                    | inr u ↦ h.verified i f (
                        sym (
                          get_elem?-set_ne candidate.approved_by src i (some g) (λ x. ground arith))
                        ∙ q)
                  ];
                }))
      ]

  -- The candidate that the round has for an identifier.
  found-IsRoundCandidate :
      (k : ℕ) (candidate : BlockCandidate)
      → get_block state k ≡ some candidate
      → IsRoundCandidate desc state.sequence_number candidate
        × (BlockCandidate.get_id candidate ≡ k)
  found-IsRoundCandidate k candidate e =
      find-All BlockCandidate.get_id (IsRoundCandidate desc state.sequence_number) k
        (iter state.sent_blocks) candidate inv.blocks
        (sym (candidate_in-find (iter state.sent_blocks) k) ∙ e)

  same_source_total :
      (source : ℕ) (candidates : List BlockCandidate)
      → All (IsRoundCandidate desc state.sequence_number) candidates
      → (b : Bool) × (approved_same_source desc pool src candidates source ≡ done b)
  unfolding approved_same_source
  same_source_total source [] h = (false, refl)
  same_source_total source (c ∷ candidates) h =
      let (o, e) = get_elem?-some c.approved_by src (omega (arith, h.0.entries.entries)) in
      let (b, q) = same_source_total source candidates h.1 in
      (
        (if BlockCandidate.get_source_index c == source
            then (if is_some o then true else b)
            else b),
        ground arith,
      )

  approve_block-StepsWell :
      (k : ℕ) (candidate : BlockCandidate)
      → get_block state k ≡ some candidate
      → k ≢ skip_round_candidate_blockid
      → (g : Signature) → StepsWell desc state (approve_block desc pool src state candidate g)
  unfolding approve_block check_approve_signature
  approve_block-StepsWell k candidate f ne g =
      let (h, id) = found-IsRoundCandidate k candidate f in
      let (o, e) = get_elem?-some candidate.approved_by src (omega (arith, h.entries.entries)) in
      let (other, q) =
        same_source_total (BlockCandidate.get_source_index candidate) (iter state.sent_blocks)
          inv.blocks in
      let (source, r) = get_elem?-some desc.sources src known in
      elim (Bool-cases (is_some o)) [
        | inl t ↦ rw (e, t) (unchanged desc state inv)
        | inr t ↦ elim (Bool-cases other) [
          | inl u ↦ rw (e, t, q, u) (unchanged desc state inv)
          | inr u ↦ elim (Option-cases candidate.block) [
            | inl z ↦ absurd (ne (sym id ∙ ap SentBlock.get_id z))
            | inr (b, z) ↦
                let y : unwrap candidate.block ≡ done b = ap unwrap z in
                elim (Bool-cases
                  (desc.crypto.verify_approve source.public_key b.root_hash b.file_hash g)) [
                    | inl v ↦
                        rw (e, t, q, u, y, r, v)
                          (approve-StepsWell candidate h g (rw z (rw (r, v) refl)))
                    | inr v ↦ rw (e, t, q, u, y, r, v) (unchanged desc state inv)
                  ]
          ]
        ]
      ]

  approve_skip-StepsWell :
      (o : Option BlockCandidate)
      → get_block state skip_round_candidate_blockid ≡ o
      → (g : Signature) → StepsWell desc state (approve_skip desc pool src state o g)
  unfolding approve_skip
  approve_skip-StepsWell none f (x ∷ g) = unchanged desc state inv
  approve_skip-StepsWell none f [] =
      approve-StepsWell (create_unapproved desc none)
        (fresh-IsRoundCandidate desc sized state.sequence_number none (λ b r. absurd (cc r))) []
        (unfold create_unapproved in refl)
  approve_skip-StepsWell (some candidate) f g =
      let (h, id) = found-IsRoundCandidate skip_round_candidate_blockid candidate f in
      let (o, e) = get_elem?-some candidate.approved_by src (omega (arith, h.entries.entries)) in
      elim (Bool-cases (is_some o)) [
        | inl t ↦ rw (e, t) (unchanged desc state inv)
        | inr t ↦ rw (e, t) (signed g h id)
      ]
    where
      signed :
          (g : Signature)
          → IsRoundCandidate desc state.sequence_number candidate
          → BlockCandidate.get_id candidate ≡ skip_round_candidate_blockid
          → StepsWell desc state
              (elim g [ [] ↦ approve desc pool src state candidate [] | x ∷ rest ↦ done state ])
      signed (x ∷ g) h id = unchanged desc state inv
      signed [] h id = elim (Option-cases candidate.block) [
        | inl z ↦ approve-StepsWell candidate h [] (rw z refl)
        | inr (b, z) ↦ absurd (
            (h.proposed b z).0 (
              let q : SentBlock.get_id candidate.block ≡ b.id = ap SentBlock.get_id z in
              sym q ∙ id))
      ]

  -- An approval counts once for each validator and for each proposer, and only with a signature that
  -- verifies.
  pub apply_approved-StepsWell :
      (k : ℕ) (g : Signature)
      → StepsWell desc state (apply_approved_block_action desc pool src state k g)
  unfolding apply_approved_block_action
  apply_approved-StepsWell k g = elim (Bool-cases (k == skip_round_candidate_blockid)) [
    | inl t ↦
        let z : k ≡ skip_round_candidate_blockid = ground arith in
        rw t (approve_skip-StepsWell (get_block state k) (ap (get_block state) (sym z)) g)
    | inr t ↦ elim (Option-cases (get_block state k)) [
      | inl e ↦ rw (t, e) (unchanged desc state inv)
      | inr (candidate, e) ↦ rw (t, e) (approve_block-StepsWell k candidate e (λ z. ground arith) g)
    ]
  ]
