-- ===== src/Session/SortedVector/Push.antt =====
-- The binary search of a sorted vector and `push` (vector.rs).
use ton_labs_node.Base.{
  ℕ, zero, suc, ◌+◌, ◌-◌, ◌/◌, ◌≤◌, ◌<◌, ◌≡◌, refl, List, [], ◌∷◌, ◌++◌, set, take, drop, ltb,
  ltb→lt, Option, none, some, get_elem?, get_elem?-some, get_elem?-lt, set_self, length, done,
  arith, Bool-cases, ◌⊎◌, inl, inr, ap, ◌>>=◌, Outcome, subst,
}
use ton_labs_node.Session.Merge.{Same}
use ton_labs_node.Session.SortedVector.{Place, hit, slot, search, push, iter, place_value}
use ton_labs_node.Session.SortedVector.Order.{IsSorted, insert, sorted_lt}

module _ {ℓ} {A : Type ℓ} (key : A → ℕ) (t : ℕ) where
  -- All items before `lo` have smaller keys; all items from `right` on have larger ones.
  abbrev pub Before : ℕ → List A → Type ℓ
  Before lo xs = (i : ℕ) (a : A) → i < lo → get_elem? xs i ≡ some a → key a < t

  abbrev pub After : ℕ → List A → Type ℓ
  After right xs = (i : ℕ) (a : A) → right ≤ i → get_elem? xs i ≡ some a → t < key a

  -- What the search may return: an item with the key, or the place where it would stand.
  abbrev pub Found : List A → Outcome Place → Type ℓ
  Found xs p =
      ((m : ℕ) × (a : A) × (p ≡ done (hit m)) × (get_elem? xs m ≡ some a) × (key a ≡ t))
      ⊎ ((r : ℕ) × (p ≡ done (slot r)) × (r ≤ length xs) × Before r xs × After r xs)

module _ {ℓ} {A : Type ℓ} (key : A → ℕ) (t : ℕ) (xs : List A) (sorted : IsSorted key xs) where
  pub past_end : After key t (length xs) xs
  past_end i a h q = absurd (omega (arith, get_elem?-lt xs i a q))

  Before-middle : (m : ℕ) (a : A) → get_elem? xs m ≡ some a → key a < t → Before key t (m + 1) xs
  Before-middle m a e h i b l q = elim (Bool-cases (ltb i m)) [
    | inl lt ↦ ground (arith, sorted_lt key i m b a xs sorted q e)
    | inr ge ↦
        let same : i ≡ m = ground arith in
        ground (arith, subst (λ j. get_elem? xs j ≡ some b) same q)
  ]

  After-middle : (m : ℕ) (a : A) → get_elem? xs m ≡ some a → t < key a → After key t m xs
  After-middle m a e h i b l q = elim (Bool-cases (ltb m i)) [
    | inl lt ↦ ground (arith, sorted_lt key m i a b xs sorted e q)
    | inr ge ↦
        let same : i ≡ m = ground arith in
        ground (arith, subst (λ j. get_elem? xs j ≡ some b) same q)
  ]

  pub search-Found :
      (fuel lo right : ℕ)
      → right - lo ≤ fuel
      → lo ≤ right
      → right ≤ length xs
      → Before key t lo xs
      → After key t right xs
      → Found key t xs (search key xs t fuel lo right)
  unfolding search
  search-Found zero lo right f l n b a =
      let same : lo ≡ right = omega arith in
      inr (right, ground arith, n, subst (λ j. Before key t j xs) same b, a)
  search-Found (suc fuel) lo right f l n b a = elim (Bool-cases (ltb lo right)) [
    | inr e ↦
        let same : lo ≡ right = ground arith in
        inr (right, rw e refl, n, subst (λ j. Before key t j xs) same b, a)
    | inl e ↦
        let m = (right + lo - 1) / 2 in
        let in_range : (lo ≤ m) × (m < right) =
          (let h : lo < right = ltb→lt lo right e in omega arith) in
        let (x, q) = get_elem?-some xs m (omega arith) in
        elim (Bool-cases (ltb (key x) t)) [
          | inl below ↦
              rw (e, q, below)
                (search-Found fuel (m + 1) right (omega arith) (omega arith) n
                  (Before-middle m x q (ltb→lt _ _ below)) a)
          | inr upper ↦ elim (Bool-cases (ltb t (key x))) [
            | inl above ↦
                rw (e, q, upper, above)
                  (search-Found fuel lo m (omega arith) (omega arith) (omega arith) b
                    (After-middle m x q (ltb→lt _ _ above)))
            | inr equal ↦ inl (m, x, rw (e, q, upper, equal) refl, q, ground arith)
          ]
        ]
  ]

module _ {ℓ} {A : Type ℓ} (key : A → ℕ) (v : A) where
  set-insert :
      (xs : List A) (m : ℕ) (a : A)
      → IsSorted key xs
      → get_elem? xs m ≡ some a
      → key a ≡ key v
      → set xs m v ≡ insert key v xs
  unfolding insert
  set-insert [] m a s q e = ground arith
  set-insert (x ∷ xs) zero a s q e = ground arith
  set-insert (x ∷ xs) (suc m) a s q e =
      ground (arith, set-insert xs m a s.1 q e, sorted_lt key 0 (suc m) x a (x ∷ xs) s refl q)

  slot-insert :
      (r : ℕ) (xs : List A)
      → r ≤ length xs
      → Before key (key v) r xs
      → After key (key v) r xs
      → take r xs ++ v ∷ drop r xs ≡ insert key v xs
  unfolding insert
  slot-insert zero [] h b a = refl
  slot-insert zero (x ∷ xs) h b a = ground (arith, a 0 x (omega arith) refl)
  slot-insert (suc r) [] h b a = absurd (omega arith)
  slot-insert (suc r) (x ∷ xs) h b a =
      let rest : take r xs ++ v ∷ drop r xs ≡ insert key v xs =
        slot-insert r xs (omega arith) (λ i y l q. b (suc i) y (omega arith) q)
          (λ i y l q. a (suc i) y (omega arith) q) in
      ground (arith, b 0 x (omega arith) refl)

module _ {ℓ} {A : Type ℓ} (key : A → ℕ) (s : Same A) where
  place_value-insert :
      (xs : List A) (v : A) (p : Outcome Place)
      → IsSorted key xs
      → Found key (key v) xs p
      → (p >>= λ place. place_value key s xs v place) ≡ done (insert key v xs)
  unfolding place_value
  place_value-insert xs v p sorted (inl (m, a, e, q, k)) =
      rw e (ground (arith, set-insert key v xs m a sorted q k, s.same_sound a v, set_self xs m a q))
  place_value-insert xs v p sorted (inr (r, e, n, b, a)) =
      rw e (ap done (slot-insert key v r xs n b a))

  -- On a sorted vector `push` is the insertion by a walk: its binary search finds the item with the
  -- same key, which it replaces, or else the one place that keeps the order. It never panics.
  pub push-eq-insert :
      (v : Option (List A)) (value : A)
      → IsSorted key (iter v)
      → push key s v value ≡ done (some (insert key value (iter v)))
  unfolding push insert
  push-eq-insert none value sorted = refl
  push-eq-insert (some xs) value sorted = ground (
    arith,
    place_value-insert xs value (search key xs (key value) (length xs) 0 (length xs)) sorted (
        search-Found key (key value) xs sorted (length xs) 0 (length xs) (omega arith) (omega arith)
          (omega arith) (λ i a h q. absurd (omega arith)) (past_end key (key value) xs sorted)),
  )
