-- ===== src/Base/Lists.antt =====
-- Lists measured and indexed by native numbers, under the library's names.
use Prim.Native.Nat.{ℕ, zero, suc, ◌+◌, ◌<◌}
use mathlib.Core.Path.{◌≡◌, refl, ap, subst}
use mathlib.Core.Logic.{◌≢◌, ◌⊎◌, inl, inr}
use mathlib.Core.List.{List, [], ◌∷◌, ◌++◌}
use mathlib.Core.Option.{Option, none, some}
use native.Mathlib.Omega.{arith}

module _ {ℓ} {A : Type ℓ} where
  abbrev pub length : List A → ℕ
  length [] = 0
  length (x ∷ xs) = suc (length xs)

  abbrev pub get_elem? : List A → ℕ → Option A
  get_elem? [] i = none
  get_elem? (x ∷ xs) zero = some x
  get_elem? (x ∷ xs) (suc i) = get_elem? xs i

  abbrev pub set : List A → ℕ → A → List A
  set [] i v = []
  set (x ∷ xs) zero v = v ∷ xs
  set (x ∷ xs) (suc i) v = x ∷ set xs i v

  abbrev pub replicate : ℕ → A → List A
  replicate zero a = []
  replicate (suc n) a = a ∷ replicate n a

  abbrev pub take : ℕ → List A → List A
  take zero xs = []
  take (suc n) [] = []
  take (suc n) (x ∷ xs) = x ∷ take n xs

  abbrev pub drop : ℕ → List A → List A
  drop zero xs = xs
  drop (suc n) [] = []
  drop (suc n) (x ∷ xs) = drop n xs

  -- A property of every element.
  abbrev pub All {κ} : (A → Type κ) → List A → Type κ
  All P [] = Unit
  All P (x ∷ xs) = P x × All P xs

module _ {ℓ} {A : Type ℓ} where
  pub length-append : (xs ys : List A) → length (xs ++ ys) ≡ length xs + length ys
  length-append [] ys = omega arith
  length-append (x ∷ xs) ys = omega (arith, length-append xs ys)

  pub length-set : (xs : List A) (i : ℕ) (v : A) → length (set xs i v) ≡ length xs
  length-set [] i v = refl
  length-set (x ∷ xs) zero v = refl
  length-set (x ∷ xs) (suc i) v = ap suc (length-set xs i v)

  pub length-replicate : (n : ℕ) (a : A) → length (replicate n a) ≡ n
  length-replicate zero a = refl
  length-replicate (suc n) a = ap suc (length-replicate n a)

  pub get_elem?-set_self :
      (xs : List A) (i : ℕ) (v : A) → i < length xs → get_elem? (set xs i v) i ≡ some v
  get_elem?-set_self [] i v h = elim h [ ]
  get_elem?-set_self (x ∷ xs) zero v h = refl
  get_elem?-set_self (x ∷ xs) (suc i) v h = get_elem?-set_self xs i v (omega arith)

  pub get_elem?-set_ne :
      (xs : List A) (i j : ℕ) (v : A) → i ≢ j → get_elem? (set xs i v) j ≡ get_elem? xs j
  get_elem?-set_ne [] i j v h = refl
  get_elem?-set_ne (x ∷ xs) zero zero v h = absurd (h refl)
  get_elem?-set_ne (x ∷ xs) zero (suc j) v h = refl
  get_elem?-set_ne (x ∷ xs) (suc i) zero v h = refl
  get_elem?-set_ne (x ∷ xs) (suc i) (suc j) v h = get_elem?-set_ne xs i j v (λ e. h (ap suc e))

  -- An index below the length holds an element.
  pub get_elem?-some : (xs : List A) (i : ℕ) → i < length xs → (a : A) × (get_elem? xs i ≡ some a)
  get_elem?-some [] i h = elim h [ ]
  get_elem?-some (x ∷ xs) zero h = (x, refl)
  get_elem?-some (x ∷ xs) (suc i) h = get_elem?-some xs i (omega arith)

  -- Only an index below the length holds an element.
  pub get_elem?-lt : (xs : List A) (i : ℕ) (a : A) → get_elem? xs i ≡ some a → i < length xs
  get_elem?-lt [] i a e = ground arith
  get_elem?-lt (x ∷ xs) zero a e = omega arith
  get_elem?-lt (x ∷ xs) (suc i) a e = omega (arith, get_elem?-lt xs i a e)

  pub set_self : (xs : List A) (m : ℕ) (a : A) → get_elem? xs m ≡ some a → set xs m a ≡ xs
  set_self [] m a q = refl
  set_self (x ∷ xs) zero a q = ground arith
  set_self (x ∷ xs) (suc m) a q = ground (arith, set_self xs m a q)

-- A property of every element is one of the element at an index.
pub All-get {ℓ κ} :
    {A : Type ℓ} (P : A → Type κ) (xs : List A) (i : ℕ) (a : A)
    → All P xs
    → get_elem? xs i ≡ some a
    → P a
All-get P [] i a h e = absurd (cc e)
All-get P (x ∷ xs) zero a h e = let q : x ≡ a = cc in subst P q h.0
All-get P (x ∷ xs) (suc i) a h e = All-get P xs i a h.1 e

-- A property of every element after an assignment.
pub set-All {ℓ κ} :
    {A : Type ℓ} (P : A → Type κ) (xs : List A) (i : ℕ) (a : A)
    → P a
    → All P xs
    → All P (set xs i a)
set-All P [] i a p h = tt
set-All P (x ∷ xs) zero a p h = (p, h.1)
set-All P (x ∷ xs) (suc i) a p h = (h.0, set-All P xs i a p h.1)

-- What holds at every index holds of every element.
pub get-All {ℓ κ} :
    {A : Type ℓ} (P : A → Type κ) (xs : List A)
    → ((i : ℕ) (a : A) → get_elem? xs i ≡ some a → P a)
    → All P xs
get-All P [] h = tt
get-All P (x ∷ xs) h = (h 0 x refl, get-All P xs (λ i a e. h (suc i) a e))

-- The entries after an assignment are the new one and the old ones.
pub get_elem?-set {ℓ} :
    {A : Type ℓ} (xs : List A) (i j : ℕ) (v w : A)
    → get_elem? (set xs i v) j ≡ some w
    → ((i ≡ j) × (v ≡ w)) ⊎ (get_elem? xs j ≡ some w)
get_elem?-set [] i j v w e = inr e
get_elem?-set (x ∷ xs) zero zero v w e = inl (refl, cc)
get_elem?-set (x ∷ xs) zero (suc j) v w e = inr e
get_elem?-set (x ∷ xs) (suc i) zero v w e = inr e
get_elem?-set (x ∷ xs) (suc i) (suc j) v w e = elim (get_elem?-set xs i j v w e) [
  | inl (q, r) ↦ inl (ap suc q, r)
  | inr r ↦ inr r
]

-- The entries of a list with one more item at its end.
pub get_elem?-append {ℓ} :
    {A : Type ℓ} (xs ys : List A) (i : ℕ) (a : A)
    → get_elem? xs i ≡ some a
    → get_elem? (xs ++ ys) i ≡ some a
get_elem?-append [] ys i a e = absurd (cc e)
get_elem?-append (x ∷ xs) ys zero a e = e
get_elem?-append (x ∷ xs) ys (suc i) a e = get_elem?-append xs ys i a e

pub get_elem?-last {ℓ} :
    {A : Type ℓ} (xs : List A) (v : A) (i : ℕ) (a : A)
    → get_elem? (xs ++ v ∷ []) i ≡ some a
    → (get_elem? xs i ≡ some a) ⊎ ((i ≡ length xs) × (v ≡ a))
get_elem?-last [] v zero a e = inr (refl, cc)
get_elem?-last [] v (suc i) a e = absurd (cc e)
get_elem?-last (x ∷ xs) v zero a e = inl e
get_elem?-last (x ∷ xs) v (suc i) a e = elim (get_elem?-last xs v i a e) [
  | inl q ↦ inl q
  | inr (q, r) ↦ inr (ap suc q, r)
]

pub get_elem?-end {ℓ} :
    {A : Type ℓ} (xs : List A) (v : A) → get_elem? (xs ++ v ∷ []) (length xs) ≡ some v
get_elem?-end [] v = refl
get_elem?-end (x ∷ xs) v = get_elem?-end xs v
