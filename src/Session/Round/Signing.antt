-- ===== src/Session/Round/Signing.antt =====
-- A commit keeps the invariant of a round (round.rs, `apply_committed_block_action`).
use ton_labs_node.Base.{
  ℕ, ◌<◌, ◌≡◌, refl, sym, ap, ◌∙◌, Bool, true, false, [], ◌∷◌, length, set, get_elem?,
  get_elem?-some, get_elem?-set_self, get_elem?-set_ne, length-set, ◌==◌, Option, none, some,
  is_some, done, arith, Bool-cases, inl, inr, subst, leb,
}
use ton_labs_node.Session.Description.{SessionDescription, check_signature}
use ton_labs_node.Session.Description.Priority.{IsSized}
use ton_labs_node.Session.Vector.{change}
use ton_labs_node.Session.SentBlock
use ton_labs_node.Session.SentBlock.{SentBlock, SentBlockPtr, skip_round_candidate_blockid}
use ton_labs_node.Session.BlockCandidate.{Signature}
use ton_labs_node.Session.Round.{RoundState}
use ton_labs_node.Session.Round.Actions.{
  RoundPool, signature_accepted, sign, commit_block, apply_committed_block_action,
}
use ton_labs_node.Session.Round.Invariant.{IsConfigured, SignedWith, IsRound}
use ton_labs_node.Session.Round.Blocks.{StepsWell, unchanged}

-- The check of a commit's signature returns for a known validator.
pub accepted_total :
    (desc : SessionDescription) (src : ℕ)
    → src < length desc.sources
    → (block : SentBlockPtr) (g : Signature)
    → (b : Bool) × (signature_accepted desc src block g (SentBlock.get_id block) ≡ done b)
unfolding signature_accepted check_signature
accepted_total desc src known none g = (elim g [ [] ↦ true | x ∷ rest ↦ false ], refl)
accepted_total desc src known (some block) g =
    let (source, r) = get_elem?-some desc.sources src known in
    elim (Bool-cases (block.id == skip_round_candidate_blockid)) [
      | inl t ↦ (elim g [ [] ↦ true | x ∷ rest ↦ false ], rw t refl)
      | inr t ↦ (
        desc.crypto.verify_block source.public_key block.root_hash block.file_hash g,
        rw (t, r) refl,
      )
    ]

module _ (desc : SessionDescription) (sized : IsSized desc) (configured : IsConfigured desc)
    (pool : RoundPool) (state : RoundState) (inv : IsRound desc state) (src : ℕ)
    (known : src < length desc.sources) where
  -- The signature of the locked block.
  sign-StepsWell :
      (g : Signature)
      → SignedWith desc state.precommitted_block src g
      → StepsWell desc state (sign desc pool src state (g))
  unfolding sign change
  sign-StepsWell g valid =
      let (o, e) = get_elem?-some state.signatures src (omega (arith, inv.signed)) in
      let b : leb src (length state.signatures) ≡ true = ground (arith, inv.signed) in
      (
        record state { signatures = set state.signatures src (some g) },
        rw (b, e) refl,
        record {
          firsts = inv.firsts;
          lasts = inv.lasts;
          blocks_sorted = inv.blocks_sorted;
          blocks = inv.blocks;
          attempts_sorted = inv.attempts_sorted;
          attempts_kept = inv.attempts_kept;
          signed = length-set state.signatures src (some g) ∙ inv.signed;
          verified = λ i f q. elim (Bool-cases (src == i)) [
            | inl u ↦
                let s : src ≡ i = ground arith in
                let r : some (some g) ≡ some (some f) =
                  sym (get_elem?-set_self state.signatures src (some g) (omega (arith, inv.signed)))
                  ∙ subst (λ j. get_elem? (set state.signatures src (some g)) j ≡ some (some f))
                      (sym s) q in
                let k : g ≡ f = cc in
                subst (λ j. SignedWith desc state.precommitted_block j f) s
                  (subst (SignedWith desc state.precommitted_block src) k valid)
            | inr u ↦
                inv.verified i f
                  (sym (get_elem?-set_ne state.signatures src i (some g) (λ x. ground arith)) ∙ q)
          ];
          locked = inv.locked;
        },
        record { number_kept = refl; lock_kept = λ b e. e },
      )

  commit_block-StepsWell :
      (block : SentBlockPtr)
      → state.precommitted_block ≡ some block
      → (k : ℕ) (g : Signature) → StepsWell desc state (commit_block desc pool src state block k g)
  unfolding commit_block
  commit_block-StepsWell block e k g = elim (Bool-cases (SentBlock.get_id block == k)) [
    | inr t ↦ rw t (unchanged desc state inv)
    | inl t ↦
        let id : SentBlock.get_id block ≡ k = ground arith in
        let (o, q) = get_elem?-some state.signatures src (omega (arith, inv.signed)) in
        let (accepted, a) = accepted_total desc src known block g in
        let c : signature_accepted desc src block g k ≡ done accepted =
          subst (λ j. signature_accepted desc src block g j ≡ done accepted) id a in
        elim (Bool-cases (is_some o)) [
          | inl u ↦ rw (t, q, u) (unchanged desc state inv)
          | inr u ↦ elim (Bool-cases accepted) [
            | inl v ↦ rw (t, q, u, c, v) (sign-StepsWell g (block, e, a ∙ ap done v))
            | inr v ↦ rw (t, q, u, c, v) (unchanged desc state inv)
          ]
        ]
  ]

  -- A commit adds a signature only to a locked block, for that block, and only one that verifies.
  pub apply_committed-StepsWell :
      (k : ℕ) (g : Signature)
      → StepsWell desc state (apply_committed_block_action desc pool src state k g)
  unfolding apply_committed_block_action
  apply_committed-StepsWell k g = committed state.precommitted_block refl
    where
      committed :
          (o : Option SentBlockPtr)
          → state.precommitted_block ≡ o
          → StepsWell desc state (elim o [
            | none ↦ done state
            | some block ↦ commit_block desc pool src state block k g
          ])
      committed none e = unchanged desc state inv
      committed (some block) e = commit_block-StepsWell block e k g
