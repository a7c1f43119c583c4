-- ===== src/Session/Vector/Merging.antt =====
-- The merge of vectors against a merge item by item, with no shortcut (vector.rs, `merge_impl`).
use ton_labs_node.Base.{
  ◌≡◌, refl, Bool, true, false, ◌||◌, List, [], ◌∷◌, length, Outcome, done, ◌>>=◌, arith, ◌∙◌, max,
}
use ton_labs_node.Session.Merge.{Same, bool_same, merge_bool, merge_bool-IsIdempotent, IsIdempotent}
use ton_labs_node.Session.Vector.{ret_flags, merge_items, merge_impl}

module _ {ℓ} {A : Type ℓ} (s : Same A) (merge_fn : A → A → Outcome A)
    (idem : IsIdempotent merge_fn) where
  pub items_left : (left : List A) → merge_items s false merge_fn left [] ≡ done left
  unfolding merge_items
  items_left [] = refl
  items_left (l ∷ left) = ground (arith, items_left left)

  pub items_right : (right : List A) → merge_items s false merge_fn [] right ≡ done right
  unfolding merge_items
  items_right [] = refl
  items_right (r ∷ right) = ground (arith, items_right right)

  ret_left-lem :
      (left right : List A)
      → (ret_flags s false merge_fn left right).0 ≡ true
      → merge_items s false merge_fn left right ≡ done left
  unfolding ret_flags merge_items
  ret_left-lem [] [] h = refl
  ret_left-lem [] (r ∷ right) h = cc
  ret_left-lem (l ∷ left) [] h = items_left (l ∷ left)
  ret_left-lem (l ∷ left) (r ∷ right) h =
      ground (arith, s.same_sound l r, idem l, ret_left-lem left right)

  ret_right-lem :
      (left right : List A)
      → (ret_flags s false merge_fn left right).1 ≡ true
      → merge_items s false merge_fn left right ≡ done right
  unfolding ret_flags merge_items
  ret_right-lem [] [] h = refl
  ret_right-lem [] (r ∷ right) h = items_right (r ∷ right)
  ret_right-lem (l ∷ left) [] h = cc
  ret_right-lem (l ∷ left) (r ∷ right) h =
      ground (arith, s.same_sound l r, idem l, ret_right-lem left right)

  -- A merge that changes nothing on equal items gives what the item by item merge gives, whichever
  -- vector the shortcut returns.
  pub merge_impl-eq-merge_items :
      (left right : List A)
      → merge_impl s false merge_fn left right ≡ merge_items s false merge_fn left right
  unfolding merge_impl
  merge_impl-eq-merge_items left right =
      ground (arith, ret_left-lem left right, ret_right-lem left right)

-- The pointwise disjunction.
abbrev pub or_items : List Bool → List Bool → List Bool
or_items [] ys = ys
or_items (x ∷ xs) [] = x ∷ xs
or_items (x ∷ xs) (y ∷ ys) = (x || y) ∷ or_items xs ys

bool_items :
    (left right : List Bool)
    → merge_items bool_same false merge_bool left right ≡ done (or_items left right)
unfolding merge_items merge_bool
bool_items [] right = items_right bool_same merge_bool merge_bool-IsIdempotent right
bool_items (l ∷ left) [] = items_left bool_same merge_bool merge_bool-IsIdempotent (l ∷ left)
bool_items (l ∷ left) (r ∷ right) = ground (arith, bool_items left right)

-- The merge of two `BoolVectorPtr`.
unfoldable pub merge_bools : List Bool → List Bool → Outcome (List Bool)
merge_bools = merge_impl bool_same false merge_bool

-- Vectors of flags merge to their pointwise disjunction, without a panic.
pub merge_bools-lem : (left right : List Bool) → merge_bools left right ≡ done (or_items left right)
unfolding merge_bools
merge_bools-lem left right =
    merge_impl-eq-merge_items bool_same merge_bool merge_bool-IsIdempotent left right
    ∙ bool_items left right

pub length-or_items : (xs ys : List Bool) → length (or_items xs ys) ≡ max (length xs) (length ys)
length-or_items [] ys = omega arith
length-or_items (x ∷ xs) [] = omega arith
length-or_items (x ∷ xs) (y ∷ ys) = omega (arith, length-or_items xs ys)

or_items_comm : (xs ys : List Bool) → or_items xs ys ≡ or_items ys xs
or_items_comm [] [] = refl
or_items_comm [] (y ∷ ys) = refl
or_items_comm (x ∷ xs) [] = refl
or_items_comm (x ∷ xs) (y ∷ ys) = ground (arith, or_items_comm xs ys)

or_items_assoc :
    (xs ys zs : List Bool) → or_items (or_items xs ys) zs ≡ or_items xs (or_items ys zs)
or_items_assoc [] ys zs = refl
or_items_assoc (x ∷ xs) [] zs = refl
or_items_assoc (x ∷ xs) (y ∷ ys) [] = refl
or_items_assoc (x ∷ xs) (y ∷ ys) (z ∷ zs) = ground (arith, or_items_assoc xs ys zs)

pub or_items_idem : (xs : List Bool) → or_items xs xs ≡ xs
or_items_idem [] = refl
or_items_idem (x ∷ xs) = ground (arith, or_items_idem xs)

-- The merge of flags does not depend on the order, the grouping or the repetition of merges.
pub merge_bools_semilattice :
    (xs ys zs : List Bool)
    → (merge_bools xs ys ≡ merge_bools ys xs)
      × ((merge_bools xs ys >>= λ m. merge_bools m zs)
          ≡ (merge_bools ys zs >>= λ m. merge_bools xs m))
      × (merge_bools xs xs ≡ done xs)
merge_bools_semilattice xs ys zs = (
  simp merge_bools-lem (ground (arith, or_items_comm xs ys)),
  simp merge_bools-lem (ground (arith, or_items_assoc xs ys zs)),
  simp merge_bools-lem (ground (arith, or_items_idem xs)),
)
