-- ===== src/Session/SortedVector.antt =====
-- validator-session/src/vector.rs, `SortedVectorImpl`: items in the order of a key. Every sorting
-- predicate of the session compares a number of the items (an identifier or a sequence number).
pub mod Order
pub mod Push
pub mod Merging
pub mod Maps
use ton_labs_node.Base.{
  ℕ, zero, suc, ◌+◌, ◌-◌, ◌/◌, Bool, true, false, List, [], ◌∷◌, ◌++◌, set, take, drop, length,
  Option, none, some, ltb, if◌then◌else◌, Outcome, done, panic, at, ◌>>=◌, unwrap,
}
use ton_labs_node.Session.Merge.{Same}

-- Where a binary search ends: at an item with the key, or between two items.
pub data Place : Type 0 where
  hit : ℕ → Place
  slot : ℕ → Place

module _ {ℓ} {A : Type ℓ} (key : A → ℕ) where
  -- `Compare::less`
  abbrev pub less : A → A → Bool
  less first second = ltb (key first) (key second)

  -- The search loop. `lo` is the source's `left + 1`, so `right - left > 1` is `lo < right`, and
  -- `(right + left) / 2` is `(right + lo - 1) / 2`. The fuel is the number of items.
  unfoldable pub search : List A → ℕ → ℕ → ℕ → ℕ → Outcome Place
  search items target zero lo right = if ltb lo right then panic else done (slot right)
  search items target (suc fuel) lo right =
      let middle = (right + lo - 1) / 2 in
      let below = search items target fuel (middle + 1) right in
      let above = search items target fuel lo middle in
      if ltb lo right
      then (at items middle >>= λ item.
          if ltb (key item) target
          then below
          else if ltb target (key item)
          then above
          else done (hit middle))
      else done (slot right)

module _ {ℓ} {A : Type ℓ} (key : A → ℕ) (s : Same A) where
  place_value : List A → A → Place → Outcome (List A)
  place_value items value (hit middle) = do
    item ← at items middle
    done (if s.same item value then items else set items middle value)
  place_value items value (slot right) = done (take right items ++ value ∷ drop right items)

  -- `SortedVectorWrapper::push`
  unfoldable pub push : Option (List A) → A → Outcome (Option (List A))
  unfolding search place_value
  push none value = done (some (value ∷ []))
  push (some items) value = do
    place ← search key items (key value) (length items) 0 (length items)
    pushed ← place_value items value place
    done (some pushed)

module _ {ℓ} {A : Type ℓ} (key : A → ℕ) (s : Same A) (merge_fn : A → A → Outcome A) where
  -- The first loop of `merge_impl` with the values of `ret_left` and `ret_right` so far.
  ret_flags : Bool → Bool → List A → List A → Bool × Bool
  ret_flags rl rr [] [] = (rl, rr)
  ret_flags rl rr [] (r ∷ right) = (false, rr)
  ret_flags rl rr (l ∷ left) [] = (rl, false)
  ret_flags rl rr (l ∷ left) (r ∷ right) =
      let left_on = ret_flags rl false left (r ∷ right) in
      let right_on = ret_flags false rr (l ∷ left) right in
      let both_on = ret_flags rl rr left right in
      if less key l r
      then left_on
      else if less key r l
      then right_on
      else if s.same l r
      then both_on
      else (false, false)

  -- The second loop.
  pub merge_items : List A → List A → Outcome (List A)
  merge_items [] [] = done []
  merge_items [] (r ∷ right) = do items ← merge_items [] right; done (r ∷ items)
  merge_items (l ∷ left) [] = do items ← merge_items left []; done (l ∷ items)
  merge_items (l ∷ left) (r ∷ right) =
      let left_on = merge_items left (r ∷ right) >>= λ items. done (l ∷ items) in
      let right_on = merge_items (l ∷ left) right >>= λ items. done (r ∷ items) in
      let both_on =
        (merge_fn l r >>= λ item. merge_items left right >>= λ items. done (item ∷ items)) in
      if less key l r then left_on else if less key r l then right_on else both_on

  pub merge_impl : List A → List A → Outcome (List A)
  unfolding ret_flags merge_items
  merge_impl left right =
      let flags = ret_flags true true left right in
      if flags.0 then done left else if flags.1 then done right else merge_items left right

  -- The merge of optional sorted vectors (utils.rs), as `merge` and `merge_custom` call it.
  pub merge_wrapped : Same (List A) → Option (List A) → Option (List A) → Outcome (Option (List A))
  unfolding merge_impl
  merge_wrapped t none right = done right
  merge_wrapped t (some left) none = done (some left)
  merge_wrapped t (some left) (some right) =
      let merged = merge_impl left right >>= λ v. done (some v) in
      if t.same left right then done (some left) else merged

module _ {ℓ} {A : Type ℓ} where
  -- `get_iter` of the wrapper
  abbrev pub iter : Option (List A) → List A
  iter none = []
  iter (some items) = items
