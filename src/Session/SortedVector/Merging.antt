-- ===== src/Session/SortedVector/Merging.antt =====
-- The merge of sorted vectors: its shortcut against the full merge (vector.rs, `merge_impl`).
use ton_labs_node.Base.{ℕ, ◌≡◌, refl, Bool, true, false, List, [], ◌∷◌, Outcome, done, arith}
use ton_labs_node.Session.Merge.{Same, IsIdempotent}
use ton_labs_node.Session.SortedVector.{ret_flags, merge_items, merge_impl}

module _ {ℓ} {A : Type ℓ} (key : A → ℕ) (s : Same A) (merge_fn : A → A → Outcome A) where
  pub items_left : (left : List A) → merge_items key s merge_fn left [] ≡ done left
  unfolding merge_items
  items_left [] = refl
  items_left (l ∷ left) = ground (arith, items_left left)

  pub items_right : (right : List A) → merge_items key s merge_fn [] right ≡ done right
  unfolding merge_items
  items_right [] = refl
  items_right (r ∷ right) = ground (arith, items_right right)

module _ {ℓ} {A : Type ℓ} (key : A → ℕ) (s : Same A) (merge_fn : A → A → Outcome A)
    (idem : IsIdempotent merge_fn) where
  -- If the loop leaves `ret_left` set, then nothing had cleared it and the merge is the left vector.
  ret_left-lem :
      (rl rr : Bool) (left right : List A)
      → (ret_flags key s merge_fn rl rr left right).0 ≡ true
      → (rl ≡ true) × (merge_items key s merge_fn left right ≡ done left)
  unfolding ret_flags merge_items
  ret_left-lem rl rr [] [] h = (h, refl)
  ret_left-lem rl rr [] (r ∷ right) h = ground arith
  ret_left-lem rl rr (l ∷ left) [] h = (h, items_left key s merge_fn (l ∷ left))
  ret_left-lem rl rr (l ∷ left) (r ∷ right) h = ground (
    arith,
    s.same_sound l r,
    idem l,
    ret_left-lem rl false left (r ∷ right),
    ret_left-lem false rr (l ∷ left) right,
    ret_left-lem rl rr left right,
  )

  ret_right-lem :
      (rl rr : Bool) (left right : List A)
      → (ret_flags key s merge_fn rl rr left right).1 ≡ true
      → (rr ≡ true) × (merge_items key s merge_fn left right ≡ done right)
  unfolding ret_flags merge_items
  ret_right-lem rl rr [] [] h = (h, refl)
  ret_right-lem rl rr [] (r ∷ right) h = (h, items_right key s merge_fn (r ∷ right))
  ret_right-lem rl rr (l ∷ left) [] h = ground arith
  ret_right-lem rl rr (l ∷ left) (r ∷ right) h = ground (
    arith,
    s.same_sound l r,
    idem l,
    ret_right-lem rl false left (r ∷ right),
    ret_right-lem false rr (l ∷ left) right,
    ret_right-lem rl rr left right,
  )

  -- When the merge of an item with itself changes nothing, the vector that the shortcut returns is
  -- the one that the full merge builds.
  pub merge_impl-eq-merge_items :
      (left right : List A)
      → merge_impl key s merge_fn left right ≡ merge_items key s merge_fn left right
  unfolding merge_impl
  merge_impl-eq-merge_items left right =
      ground (arith, ret_left-lem true true left right, ret_right-lem true true left right)

  merge_items_self : (xs : List A) → merge_items key s merge_fn xs xs ≡ done xs
  unfolding merge_items
  merge_items_self [] = refl
  merge_items_self (x ∷ xs) = ground (arith, idem x, merge_items_self xs)
