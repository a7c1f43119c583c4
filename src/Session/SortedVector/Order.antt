-- ===== src/Session/SortedVector/Order.antt =====
-- The order of a sorted vector, look-up by key, and insertion by a walk: the reference for the
-- binary searches.
use ton_labs_node.Base.{
  ℕ, zero, suc, ◌≤◌, ◌<◌, ◌≡◌, refl, List, [], ◌∷◌, ltb, ◌==◌, if◌then◌else◌, Option, none, some,
  All, get_elem?, arith, Bool-cases, inl, inr, subst,
}

module _ {ℓ} {A : Type ℓ} (key : A → ℕ) where
  -- Every key is above the bound.
  abbrev pub Above : ℕ → List A → Type 0
  Above k [] = Unit
  Above k (x ∷ xs) = (k < key x) × Above k xs

  -- Keys grow strictly along the list.
  abbrev pub IsSorted : List A → Type 0
  IsSorted [] = Unit
  IsSorted (x ∷ xs) = Above (key x) xs × IsSorted xs

  -- The item with a key.
  unfoldable pub find : ℕ → List A → Option A
  find k [] = none
  find k (x ∷ xs) = if key x == k then some x else find k xs

  -- Insertion that replaces the item with the same key.
  unfoldable pub insert : A → List A → List A
  insert v [] = v ∷ []
  insert v (x ∷ xs) =
      if ltb (key x) (key v)
      then x ∷ insert v xs
      else if ltb (key v) (key x)
      then v ∷ x ∷ xs
      else v ∷ xs

module _ {ℓ} {A : Type ℓ} (key : A → ℕ) where
  pub Above-mono : (j k : ℕ) (xs : List A) → j ≤ k → Above key k xs → Above key j xs
  Above-mono j k [] h a = tt
  Above-mono j k (x ∷ xs) h a = (omega arith, Above-mono j k xs h a.1)

  pub find_below : (j k : ℕ) (xs : List A) → j ≤ k → Above key k xs → find key j xs ≡ none
  unfolding find
  find_below j k [] h a = refl
  find_below j k (x ∷ xs) h a = ground (arith, find_below j k xs h a.1)

  insert-Above :
      (k : ℕ) (v : A) (xs : List A) → k < key v → Above key k xs → Above key k (insert key v xs)
  unfolding insert
  insert-Above k v [] h a = (h, tt)
  insert-Above k v (x ∷ xs) h a = ground (arith, insert-Above k v xs h a.1)

  pub insert-IsSorted : (v : A) (xs : List A) → IsSorted key xs → IsSorted key (insert key v xs)
  unfolding insert
  insert-IsSorted v [] s = (tt, tt)
  insert-IsSorted v (x ∷ xs) s =
      ground
        (arith, insert-Above (key x) v xs, insert-IsSorted v xs s.1, Above-mono (key v) (key x) xs)

  -- After an insertion the key of the item finds the item, and every other key finds what it did.
  pub find-insert :
      (k : ℕ) (v : A) (xs : List A)
      → IsSorted key xs
      → find key k (insert key v xs) ≡ (if key v == k then some v else find key k xs)
  unfolding find insert
  find-insert k v [] s = refl
  find-insert k v (x ∷ xs) s = ground (arith, find-insert k v xs s.1)

  pub find-Above : (j k : ℕ) (a : A) (xs : List A) → Above key j xs → find key k xs ≡ some a → j < k
  unfolding find
  find-Above j k a [] h e = ground arith
  find-Above j k a (x ∷ xs) h e = ground (arith, find-Above j k a xs h.1)

  Above-get : (k i : ℕ) (a : A) (xs : List A) → Above key k xs → get_elem? xs i ≡ some a → k < key a
  Above-get k i a [] h e = ground arith
  Above-get k zero a (x ∷ xs) h e = ground arith
  Above-get k (suc i) a (x ∷ xs) h e = Above-get k i a xs h.1 e

  -- Positions and keys go together.
  pub sorted_lt :
      (i j : ℕ) (a b : A) (xs : List A)
      → IsSorted key xs
      → get_elem? xs i ≡ some a
      → get_elem? xs j ≡ some b
      → i < j
      → key a < key b
  sorted_lt i j a b [] s p q h = ground arith
  sorted_lt i zero a b (x ∷ xs) s p q h = absurd (omega arith)
  sorted_lt zero (suc j) a b (x ∷ xs) s p q h = ground (arith, Above-get (key x) j b xs s.0 q)
  sorted_lt (suc i) (suc j) a b (x ∷ xs) s p q h = sorted_lt i j a b xs s.1 p q (omega arith)

  pub find_at :
      (i : ℕ) (a : A) (xs : List A)
      → IsSorted key xs
      → get_elem? xs i ≡ some a
      → find key (key a) xs ≡ some a
  unfolding find
  find_at i a [] s e = ground arith
  find_at zero a (x ∷ xs) s e = ground arith
  find_at (suc i) a (x ∷ xs) s e =
      ground (arith, find_at i a xs s.1 e, Above-get (key x) i a xs s.0 e)

module _ {ℓ κ} {A : Type ℓ} (key : A → ℕ) (P : A → Type κ) where
  pub insert-All : (v : A) (xs : List A) → P v → All P xs → All P (insert key v xs)
  unfolding insert
  insert-All v [] p h = (p, tt)
  insert-All v (x ∷ xs) p h = elim (Bool-cases (ltb (key x) (key v))) [
    | inl t ↦ rw t (h.0, insert-All v xs p h.1)
    | inr t ↦ elim (Bool-cases (ltb (key v) (key x))) [
      | inl u ↦ rw (t, u) (p, h)
      | inr u ↦ rw (t, u) (p, h.1)
    ]
  ]

  -- What is found has the key, and every property that all items have.
  pub find-All :
      (k : ℕ) (xs : List A) (a : A) → All P xs → find key k xs ≡ some a → P a × (key a ≡ k)
  unfolding find
  find-All k [] a h e = absurd (cc e)
  find-All k (x ∷ xs) a h e = elim (Bool-cases (key x == k)) [
    | inl t ↦ let q : x ≡ a = ground arith in (subst P q h.0, ground arith)
    | inr t ↦ find-All k xs a h.1 (ground arith)
  ]
