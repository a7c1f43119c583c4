-- ===== src/Session/BlockCandidate/Approvals.antt =====
-- What the operations do to the approvals of a block (block_candidate.rs).
use ton_labs_node.Base.{
  ℕ, zero, suc, ◌<◌, ◌≡◌, refl, sym, ◌∙◌, Bool, true, false, leb, List, [], ◌∷◌, length, set,
  get_elem?-some, Option, none, some, is_some, done, ◌>>=◌, arith, ◌⊎◌, inl, inr, length-set,
  length-replicate, max, if◌then◌else◌, u32,
}
use ton_labs_node.Session.Description.{SessionDescription}
use ton_labs_node.Session.Description.Weights.{
  IsWeighed, PassesMore, weigh_mono, weigh-lem, weight_of,
}
use ton_labs_node.Session.Merge.{
  Same, option_same, merge_option, IsIdempotent, merge_option-IsIdempotent,
}
use ton_labs_node.Session.Vector.{merge_items}
use ton_labs_node.Session.Vector.Merging.{merge_impl-eq-merge_items, items_left, items_right}
use ton_labs_node.Session.SentBlock.{SentBlockPtr}
use ton_labs_node.Session.BlockCandidate.{
  Signature, lex_lt, merge_signature, BlockCandidate, get_id, check_block_is_approved,
  check_block_is_approved_by, push, merge_signatures, merge, create_unapproved,
}

-- One entry for each validator.
pub record IsCandidate (desc : SessionDescription) (candidate : BlockCandidate) : Type 0 where
  pub entries : length candidate.approved_by ≡ length desc.sources

lex_lt_refl : (x : Signature) → lex_lt x x ≡ false
unfolding lex_lt
lex_lt_refl [] = refl
lex_lt_refl (a ∷ x) = ground (arith, lex_lt_refl x)

lex_lt_asymm : (x y : Signature) → lex_lt x y ≡ true → lex_lt y x ≡ false
unfolding lex_lt
lex_lt_asymm [] [] h = refl
lex_lt_asymm [] (b ∷ y) h = refl
lex_lt_asymm (a ∷ x) [] h = ground arith
lex_lt_asymm (a ∷ x) (b ∷ y) h = ground (arith, lex_lt_asymm x y)

lex_lt_antisymm : (x y : Signature) → lex_lt x y ≡ false → lex_lt y x ≡ false → x ≡ y
unfolding lex_lt
lex_lt_antisymm [] [] h k = refl
lex_lt_antisymm [] (b ∷ y) h k = ground arith
lex_lt_antisymm (a ∷ x) [] h k = ground arith
lex_lt_antisymm (a ∷ x) (b ∷ y) h k = ground (arith, lex_lt_antisymm x y)

-- The smaller of two signatures, and the one that is there.
abbrev pub pick : Option Signature → Option Signature → Option Signature
pick none y = y
pick (some x) none = some x
pick (some x) (some y) = some (if lex_lt x y then x else y)

pick_comm : (x y : Option Signature) → pick x y ≡ pick y x
pick_comm none none = refl
pick_comm none (some y) = refl
pick_comm (some x) none = refl
pick_comm (some x) (some y) =
    ground (arith, lex_lt_asymm x y, lex_lt_asymm y x, lex_lt_antisymm x y)

abbrev pub pick_items : List (Option Signature) → List (Option Signature) → List (Option Signature)
pick_items [] ys = ys
pick_items (x ∷ xs) [] = x ∷ xs
pick_items (x ∷ xs) (y ∷ ys) = pick x y ∷ pick_items xs ys

pick_items_comm : (xs ys : List (Option Signature)) → pick_items xs ys ≡ pick_items ys xs
pick_items_comm [] [] = refl
pick_items_comm [] (y ∷ ys) = refl
pick_items_comm (x ∷ xs) [] = refl
pick_items_comm (x ∷ xs) (y ∷ ys) = ground (arith, pick_items_comm xs ys, pick_comm x y)

pub pick_items_idem : (xs : List (Option Signature)) → pick_items xs xs ≡ xs
pick_items_idem [] = refl
pick_items_idem (none ∷ xs) = ground (arith, pick_items_idem xs)
pick_items_idem (some x ∷ xs) = ground (arith, pick_items_idem xs)

pub length-pick_items :
    (xs ys : List (Option Signature)) → length (pick_items xs ys) ≡ max (length xs) (length ys)
length-pick_items [] ys = omega arith
length-pick_items (x ∷ xs) [] = omega arith
length-pick_items (x ∷ xs) (y ∷ ys) = omega (arith, length-pick_items xs ys)

merge_signature-IsIdempotent : IsIdempotent merge_signature
unfolding merge_signature
merge_signature-IsIdempotent x = ground arith

module _ (pool : Same Signature) where
  merge_option-pick :
      (x y : Option Signature) → merge_option pool merge_signature x y ≡ done (pick x y)
  unfolding merge_option merge_signature
  merge_option-pick none y = refl
  merge_option-pick (some x) none = refl
  merge_option-pick (some x) (some y) = ground (arith, pool.same_sound x y)

  pick_items-lem :
      (xs ys : List (Option Signature))
      → merge_items (option_same pool) false (merge_option pool merge_signature) xs ys
        ≡ done (pick_items xs ys)
  unfolding merge_items
  pick_items-lem [] ys =
      items_right (option_same pool) (merge_option pool merge_signature)
        (merge_option-IsIdempotent pool merge_signature merge_signature-IsIdempotent) ys
  pick_items-lem (x ∷ xs) [] =
      items_left (option_same pool) (merge_option pool merge_signature)
        (merge_option-IsIdempotent pool merge_signature merge_signature-IsIdempotent) (x ∷ xs)
  pick_items-lem (x ∷ xs) (y ∷ ys) = ground (arith, pick_items-lem xs ys, merge_option-pick x y)

  -- Vectors of signatures merge without a panic, entry by entry, to the smaller signature.
  pub merge_signatures-lem :
      (xs ys : List (Option Signature)) → merge_signatures pool xs ys ≡ done (pick_items xs ys)
  unfolding merge_signatures
  merge_signatures-lem xs ys =
      merge_impl-eq-merge_items (option_same pool) (merge_option pool merge_signature)
        (merge_option-IsIdempotent pool merge_signature merge_signature-IsIdempotent) xs ys
      ∙ pick_items-lem xs ys

-- The candidate with one more signature, and with the signatures of another one.
abbrev pub with_approval : BlockCandidate → ℕ → Signature → BlockCandidate
with_approval candidate src g = record candidate {
  approved_by = set candidate.approved_by src (some g);
}

abbrev pub united : BlockCandidate → BlockCandidate → BlockCandidate
united left right = record left { approved_by = pick_items left.approved_by right.approved_by }

pub some_more :
    (xs : List (Option Signature)) (i : ℕ) (g : Signature)
    → PassesMore is_some is_some xs (set xs i (some g))
some_more [] i g = tt
some_more (x ∷ xs) zero g = ((λ h. refl), more_refl xs)
  where
    more_refl : (ys : List (Option Signature)) → PassesMore is_some is_some ys ys
    more_refl [] = tt
    more_refl (y ∷ ys) = ((λ h. h), more_refl ys)
some_more (x ∷ xs) (suc i) g = ((λ h. h), some_more xs i g)

pub pick_more :
    (xs ys : List (Option Signature))
    → length xs ≡ length ys
    → PassesMore is_some is_some xs (pick_items xs ys)
      × PassesMore is_some is_some ys (pick_items xs ys)
pick_more [] [] h = (tt, tt)
pick_more [] (y ∷ ys) h = absurd (omega arith)
pick_more (x ∷ xs) [] h = absurd (omega arith)
pick_more (x ∷ xs) (y ∷ ys) h =
    let rest = pick_more xs ys (omega arith) in ((ground arith, rest.0), (ground arith, rest.1))

module _ (desc : SessionDescription) where
  pub create_unapproved-IsCandidate :
      (block : SentBlockPtr)
      → length desc.sources < 4294967296
      → IsCandidate desc (create_unapproved desc block)
  unfolding create_unapproved
  create_unapproved-IsCandidate block h = record {
    entries = length-replicate (u32 (length desc.sources)) none ∙ omega arith;
  }

  module _ (candidate : BlockCandidate) (v : IsCandidate desc candidate) (src : ℕ)
      (known : src < length desc.sources) (g : Signature) where
    -- The first signature of a validator is stored in its entry; a later one is ignored.
    pub push-lem : push candidate src (some g) ≡ (
        check_block_is_approved_by candidate src >>= λ approved.
        done (if approved then candidate else with_approval candidate src g))
    unfolding push
    push-lem =
        let (o, e) = get_elem?-some candidate.approved_by src (omega (arith, v.entries)) in
        ground arith

    pub with_approval-IsCandidate : IsCandidate desc (with_approval candidate src g)
    with_approval-IsCandidate = record {
      entries = length-set candidate.approved_by src (some g) ∙ v.entries;
    }

    -- A block that is approved stays approved.
    approved-with_approval :
        IsWeighed desc
        → check_block_is_approved desc candidate ≡ done true
        → check_block_is_approved desc (with_approval candidate src g) ≡ done true
    unfolding check_block_is_approved
    approved-with_approval w h =
        weigh_mono is_some is_some desc candidate.approved_by _ w (omega (arith, v.entries))
          (omega (arith, with_approval-IsCandidate.entries)) (some_more candidate.approved_by src g)
          h

module _ (desc : SessionDescription) (pool : Same Signature) where
  pub merge_self : (candidate : BlockCandidate) → merge pool candidate candidate ≡ done candidate
  unfolding merge
  merge_self candidate =
      simp merge_signatures-lem (ground (arith, pick_items_idem candidate.approved_by))

  module _ (left right : BlockCandidate) (vl : IsCandidate desc left) (vr : IsCandidate desc right)
      (same : get_id left ≡ get_id right) where
    -- Candidates for one block merge without a panic, entry by entry.
    pub merge-lem : merge pool left right ≡ done (united left right)
    unfolding merge
    merge-lem = simp merge_signatures-lem (ground arith)

    united-IsCandidate : IsCandidate desc (united left right)
    united-IsCandidate = record {
      entries =
          omega
            (arith, length-pick_items left.approved_by right.approved_by, vl.entries, vr.entries);
    }

    -- A block that is approved on either side is approved in the merge.
    pub approved-merge :
        IsWeighed desc
        → (check_block_is_approved desc left ≡ done true)
          ⊎ (check_block_is_approved desc right ≡ done true)
        → check_block_is_approved desc (united left right) ≡ done true
    unfolding check_block_is_approved
    approved-merge w (inl h) =
        weigh_mono is_some is_some desc left.approved_by _ w (omega (arith, vl.entries))
          (omega (arith, united-IsCandidate.entries))
          (pick_more left.approved_by right.approved_by (vl.entries ∙ sym vr.entries)).0 h
    approved-merge w (inr h) =
        weigh_mono is_some is_some desc right.approved_by _ w (omega (arith, vr.entries))
          (omega (arith, united-IsCandidate.entries))
          (pick_more left.approved_by right.approved_by (vl.entries ∙ sym vr.entries)).1 h

-- In a weighed session a block that is approved in one of two candidates for it is approved in
-- their merge.
pub is_approved-merge :
    (desc : SessionDescription) (pool : Same Signature)
    → IsWeighed desc
    → (left right : BlockCandidate) → IsCandidate desc left
    → IsCandidate desc right
    → get_id left ≡ get_id right
    → (check_block_is_approved desc left ≡ done true)
      ⊎ (check_block_is_approved desc right ≡ done true)
    → (merge pool left right >>= check_block_is_approved desc) ≡ done true
is_approved-merge desc pool weighed left right vl vr same h =
    rw (merge-lem desc pool left right vl vr same)
      (approved-merge desc pool left right vl vr same weighed h)

pub approved_total :
    (desc : SessionDescription) (candidate : BlockCandidate)
    → IsWeighed desc
    → IsCandidate desc candidate
    → (b : Bool) × (check_block_is_approved desc candidate ≡ done b)
unfolding check_block_is_approved
approved_total desc candidate weighed v = (
  leb desc.cutoff_weight (weight_of is_some desc.sources candidate.approved_by),
  weigh-lem is_some desc candidate.approved_by weighed (omega (arith, v.entries)),
)
