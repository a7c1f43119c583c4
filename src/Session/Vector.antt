-- ===== src/Session/Vector.antt =====
-- validator-session/src/vector.rs, `VectorImpl` and its optional wrapper, and the merge of optional
-- vectors (utils.rs). A vector is the list of its items: its pool and its hash are left out.
pub mod Merging
use ton_labs_node.Base.{
  ℕ, ◌+◌, Bool, true, false, List, [], ◌∷◌, ◌++◌, map, set, length, Option, none, some,
  if◌then◌else◌, Outcome, done, panic, at, ◌>>=◌, ◌>>◌, unwrap, assert, leb,
}
use ton_labs_node.Session.Merge.{Same}

module _ {ℓ} {A : Type ℓ} where
  unfoldable pub push : List A → A → List A
  push v value = v ++ value ∷ []

  -- `result.data[index] = value` panics out of bounds.
  unfoldable pub change : List A → ℕ → A → Outcome (List A)
  change v index value = do assert (leb index (length v)); _ ← at v index; done (set v index value)

  unfoldable pub modify : (A → A) → List A → List A
  modify modifier v = map modifier v

module _ {ℓ} {A : Type ℓ} (s : Same A) (merge_all : Bool) (merge_fn : A → A → Outcome A) where
  -- The first loop of `merge_impl`: may the left or the right vector be returned as it is?
  ret_flags : List A → List A → Bool × Bool
  ret_flags [] [] = (true, true)
  ret_flags [] (r ∷ right) = (false, true)
  ret_flags (l ∷ left) [] = (true, false)
  ret_flags (l ∷ left) (r ∷ right) = if s.same l r then ret_flags left right else (false, false)

  alone : A → Outcome A
  alone a = if merge_all then merge_fn a a else done a

  -- The second loop.
  unfoldable pub merge_items : List A → List A → Outcome (List A)
  unfolding alone
  merge_items [] [] = done []
  merge_items [] (r ∷ right) = do item ← alone r; items ← merge_items [] right; done (item ∷ items)
  merge_items (l ∷ left) [] = do item ← alone l; items ← merge_items left []; done (item ∷ items)
  merge_items (l ∷ left) (r ∷ right) = do
    item ← merge_fn l r
    items ← merge_items left right
    done (item ∷ items)

  pub merge_impl : List A → List A → Outcome (List A)
  unfolding ret_flags merge_items
  merge_impl left right =
      let flags = ret_flags left right in
      if merge_all
      then merge_items left right
      else if flags.0
      then done left
      else if flags.1
      then done right
      else merge_items left right

  -- The merge of optional vectors; the comparison of two vectors is one of addresses.
  pub merge_wrapped : Same (List A) → Option (List A) → Option (List A) → Outcome (Option (List A))
  unfolding merge_impl
  merge_wrapped t none right = if merge_all then panic else done right
  merge_wrapped t (some left) none = if merge_all then panic else done (some left)
  merge_wrapped t (some left) (some right) =
      let merged = merge_impl left right >>= (λ v. done (some v)) in
      if merge_all then merged else if t.same left right then done (some left) else merged

-- The wrapper `Option<PoolPtr<dyn Vector<T>>>`
module _ {ℓ} {A : Type ℓ} where
  abbrev pub wrapped_at : Option (List A) → ℕ → Outcome A
  wrapped_at v index = do data_of ← unwrap v; at data_of index

  unfoldable pub wrapped_change : Option (List A) → ℕ → A → Outcome (Option (List A))
  unfolding change
  wrapped_change none index value = done none
  wrapped_change (some v) index value = do changed ← change v index value; done (some changed)

  unfoldable pub wrapped_modify : (A → A) → Option (List A) → Option (List A)
  unfolding modify
  wrapped_modify modifier none = none
  wrapped_modify modifier (some v) = some (modify modifier v)

  unfoldable pub wrapped_push : Option (List A) → A → Option (List A)
  unfolding push
  wrapped_push none value = some (push [] value)
  wrapped_push (some v) value = some (push v value)

  -- `create_wrapper`: no vector for no items.
  unfoldable pub create_wrapper : List A → Option (List A)
  create_wrapper [] = none
  create_wrapper (x ∷ xs) = some (x ∷ xs)
