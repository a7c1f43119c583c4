-- ===== src/Session/SortedVector/Maps.antt =====
-- The merge of sorted vectors as a merge of two finite maps (vector.rs, `merge_impl`).
use ton_labs_node.Base.{
  ℕ, ◌≡◌, refl, ap, ◌∙◌, subst, List, [], ◌∷◌, ltb→lt, ◌==◌, Option, none, some, All, Outcome, done,
  ◌>>=◌, arith, Bool-cases, inl, inr,
}
use ton_labs_node.Session.Merge.{Same, IsIdempotent}
use ton_labs_node.Session.SortedVector.{less, merge_items, merge_wrapped, iter}
use ton_labs_node.Session.SortedVector.Order.{Above, IsSorted, find, Above-mono, find_below}
use ton_labs_node.Session.SortedVector.Merging.{items_left, items_right, merge_impl-eq-merge_items}

-- The merge of what two maps hold under one key.
abbrev pub combine {ℓ} :
    {A : Type ℓ} → (A → A → Outcome A) → Option A → Option A → Outcome (Option A)
combine merge_fn none r = done r
combine merge_fn (some l) none = done (some l)
combine merge_fn (some l) (some r) = merge_fn l r >>= λ m. done (some m)

combine-none {ℓ} :
    {A : Type ℓ} (merge_fn : A → A → Outcome A) (o : Option A) → combine merge_fn o none ≡ done o
combine-none merge_fn none = refl
combine-none merge_fn (some a) = refl

-- A merge of items that succeeds on well-formed items with one key, and keeps both.
abbrev pub MergesWell {ℓ κ} :
    {A : Type ℓ} → (A → ℕ) → (A → Type κ) → (A → A → Outcome A) → Type (ℓ ⊔ κ)
MergesWell {A} key P merge_fn =
    (l r : A)
    → P l
    → P r
    → key l ≡ key r
    → (m : A) × (merge_fn l r ≡ done m) × (key m ≡ key l) × P m

module _ {ℓ κ} {A : Type ℓ} (key : A → ℕ) (P : A → Type κ) (s : Same A)
    (merge_fn : A → A → Outcome A) (well : MergesWell key P merge_fn) where
  -- What the merge of two sorted vectors returns.
  abbrev IsJoin : List A → List A → List A → Type (ℓ ⊔ κ)
  IsJoin left right items =
      (merge_items key s merge_fn left right ≡ done items)
      × IsSorted key items
      × All P items
      × ((k : ℕ) → Above key k left → Above key k right → Above key k items)
      × ((k : ℕ) → combine merge_fn (find key k left) (find key k right) ≡ done (find key k items))

  keep_left :
      (l : A) (left right items : List A)
      → IsSorted key (l ∷ left)
      → P l
      → Above key (key l) right
      → (merge_items key s merge_fn (l ∷ left) right
          ≡ (merge_items key s merge_fn left right >>= λ items. done (l ∷ items)))
      → IsJoin left right items
      → IsJoin (l ∷ left) right (l ∷ items)
  unfolding find
  keep_left l left right items sl pl ab e (m, si, pi, abi, ci) = (
    ground arith,
    (abi (key l) sl.0 ab, si),
    (pl, pi),
    λ k a b. (a.0, abi k a.1 b),
    λ k. ground (arith, ci k, find_below key k (key l) right, find_below key k (key l) left),
  )

  keep_right :
      (r : A) (left right items : List A)
      → IsSorted key (r ∷ right)
      → P r
      → Above key (key r) left
      → (merge_items key s merge_fn left (r ∷ right)
          ≡ (merge_items key s merge_fn left right >>= λ items. done (r ∷ items)))
      → IsJoin left right items
      → IsJoin left (r ∷ right) (r ∷ items)
  unfolding find
  keep_right r left right items sr pr ab e (m, si, pi, abi, ci) = (
    ground arith,
    (abi (key r) ab sr.0, si),
    (pr, pi),
    λ k a b. (b.0, abi k a b.1),
    λ k. elim (Bool-cases (key r == k)) [
      | inl t ↦ rw (t, find_below key k (key r) left (ground arith) ab) refl
      | inr t ↦ rw t (ci k)
    ],
  )

  keep_both :
      (l r m : A) (left right items : List A)
      → IsSorted key (l ∷ left)
      → IsSorted key (r ∷ right)
      → key l ≡ key r
      → merge_fn l r ≡ done m
      → key m ≡ key l
      → P m
      → IsJoin left right items
      → IsJoin (l ∷ left) (r ∷ right) (m ∷ items)
  unfolding find merge_items
  keep_both l r m left right items sl sr q e km pm (me, si, pi, abi, ci) = (
    ground arith,
    (abi (key m) (rw km sl.0) (rw (km, q) sr.0), si),
    (pm, pi),
    λ k a b. (ground arith, abi k a.1 b.1),
    λ k. ground (arith, ci k),
  )

  -- Two sorted vectors of well-formed items merge without a panic to a sorted vector of well-formed
  -- items that holds, under each key, the merge of what the two vectors hold under it.
  merge_items-IsJoin :
      (left right : List A)
      → IsSorted key left
      → IsSorted key right
      → All P left
      → All P right
      → (items : List A) × IsJoin left right items
  merge_items-IsJoin [] right sl sr pl pr =
      (right, (items_right key s merge_fn right, sr, pr, (λ k a b. b), λ k. unfold find in refl))
  merge_items-IsJoin (l ∷ left) [] sl sr pl pr = (
    l ∷ left,
    (
      items_left key s merge_fn (l ∷ left),
      sl,
      pl,
      (λ k a b. a),
      λ k. unfold find in combine-none merge_fn (find key k (l ∷ left)),
    ),
  )
  merge_items-IsJoin (l ∷ left) (r ∷ right) sl sr pl pr = elim (Bool-cases (less key l r)) [
    | inl lt ↦
        let (items, h) = merge_items-IsJoin left (r ∷ right) sl.1 sr pl.1 pr in
        (
          l ∷ items,
          keep_left l left (r ∷ right) items sl pl.0
              (ltb→lt _ _ lt, Above-mono key (key l) (key r) right (ground arith) sr.0)
              (unfold merge_items in ground arith) h,
        )
    | inr ge ↦ elim (Bool-cases (less key r l)) [
      | inl gt ↦
          let (items, h) = merge_items-IsJoin (l ∷ left) right sl sr.1 pl pr.1 in
          (
            r ∷ items,
            keep_right r (l ∷ left) right items sr pr.0
                (ltb→lt _ _ gt, Above-mono key (key r) (key l) left (ground arith) sl.0)
                (unfold merge_items in ground arith) h,
          )
      | inr le ↦
          let (items, h) = merge_items-IsJoin left right sl.1 sr.1 pl.1 pr.1 in
          let q : key l ≡ key r = ground arith in
          let (m, e, km, pm) = well l r pl.0 pr.0 q in
          (m ∷ items, keep_both l r m left right items sl sr q e km pm h)
    ]
  ]

combine_self {ℓ} :
    {A : Type ℓ} (merge_fn : A → A → Outcome A)
    → IsIdempotent merge_fn
    → (o : Option A) → combine merge_fn o o ≡ done o
combine_self merge_fn idem none = refl
combine_self merge_fn idem (some a) = rw (idem a) refl

module _ {ℓ κ} {A : Type ℓ} (key : A → ℕ) (P : A → Type κ) (s : Same A)
    (merge_fn : A → A → Outcome A) (well : MergesWell key P merge_fn) (idem : IsIdempotent merge_fn)
    (t : Same (List A)) where
  -- What the merge of two optional sorted vectors returns.
  abbrev pub IsUnion : Option (List A) → Option (List A) → Option (List A) → Type (ℓ ⊔ κ)
  IsUnion left right items =
      IsSorted key (iter items)
      × All P (iter items)
      × ((k : ℕ)
          → combine merge_fn (find key k (iter left)) (find key k (iter right))
            ≡ done (find key k (iter items)))

  -- With a merge of items that succeeds on well-formed items with one key, keeps the key, and is
  -- idempotent, two optional sorted vectors of well-formed items merge without a panic. The result
  -- is sorted and well-formed, and holds under each key the merge of what the two hold under it.
  pub merge_wrapped-IsUnion :
      (left right : Option (List A))
      → IsSorted key (iter left)
      → IsSorted key (iter right)
      → All P (iter left)
      → All P (iter right)
      → (items : Option (List A)) × (merge_wrapped key s merge_fn t left right ≡ done items)
        × IsUnion left right items
  unfolding merge_wrapped
  merge_wrapped-IsUnion none right sl sr pl pr = (right, refl, (sr, pr, λ k. unfold find in refl))
  merge_wrapped-IsUnion (some left) none sl sr pl pr =
      (some left, refl, (sl, pl, λ k. unfold find in combine-none merge_fn (find key k left)))
  merge_wrapped-IsUnion (some left) (some right) sl sr pl pr =
      elim (Bool-cases (t.same left right)) [
        | inl y ↦
            let q : left ≡ right = t.same_sound left right y in
            (
              some left,
              rw y refl,
              (
                sl,
                pl,
                λ k.
                    subst
                      (λ v.
                        combine merge_fn (find key k left) (find key k v) ≡ done (find key k left))
                      q (combine_self merge_fn idem (find key k left)),
              ),
            )
        | inr n ↦
            let (items, h) = merge_items-IsJoin key P s merge_fn well left right sl sr pl pr in
            (
              some items,
              rw n (
                  ap (λ o. o >>= λ v. done (some v))
                    (merge_impl-eq-merge_items key s merge_fn idem left right ∙ h.0)),
              (h.1, h.2, h.4),
            )
      ]
