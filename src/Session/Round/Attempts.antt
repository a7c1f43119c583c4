-- ===== src/Session/Round/Attempts.antt =====
-- The attempts of a round by their sequence numbers, and what an action makes of one of them
-- (round.rs, `get_attempt`).
use ton_labs_node.Base.{
  ℕ, suc, ◌<◌, ◌≡◌, refl, sym, List, [], ◌∷◌, length, get_elem?, ltb, ◌==◌, Option, none, some,
  Outcome, done, ◌>>=◌, arith, Bool-cases, ◌⊎◌, inl, inr, ◌≢◌, subst,
}
use ton_labs_node.Session.Description.{SessionDescription}
use ton_labs_node.Session.Description.Weights.{IsWeighed}
use ton_labs_node.Session.Description.Priority.{IsSized}
use ton_labs_node.Session.Merge.{never_same}
use ton_labs_node.Session.SortedVector.{search, Place, iter}
use ton_labs_node.Session.SortedVector.Order.{IsSorted, find, find_at, insert, find-insert}
use ton_labs_node.Session.SortedVector.Push.{Found, Before, After, search-Found, past_end}
use ton_labs_node.Session.Attempt.{RoundAttempt}
use ton_labs_node.Session.Attempt.Invariant.{HasVoted, IsAttempt}
use ton_labs_node.Session.Attempt.Actions.{still_voted}
use ton_labs_node.Session.Attempt.Moves.{Move, stays, votes_for, precommits, proposes}
use ton_labs_node.Session.Round.{get_attempt, attempt_at}

-- The key of the attempts.
abbrev pub number : RoundAttempt → ℕ
number a = a.sequence_number

module _ {ℓ} {A : Type ℓ} (key : A → ℕ) (t : ℕ) where
  absent :
      (xs : List A) → ((i : ℕ) (a : A) → get_elem? xs i ≡ some a → key a ≢ t) → find key t xs ≡ none
  unfolding find
  absent [] h = refl
  absent (x ∷ xs) h = ground (arith, h 0 x refl, absent xs (λ i a e. h (suc i) a e))

  slot-absent : (r : ℕ) (xs : List A) → Before key t r xs → After key t r xs → find key t xs ≡ none
  slot-absent r xs b a = absent xs (λ i x e q. elim (Bool-cases (ltb i r)) [
    | inl l ↦ let h : key x < t = b i x (ground arith) e in omega arith
    | inr l ↦ let h : t < key x = a i x (ground arith) e in omega arith
  ])

module _ (t : ℕ) (xs : List RoundAttempt) (sorted : IsSorted number xs) where
  Found-attempt :
      (p : Outcome Place) → Found number t xs p → (p >>= attempt_at xs) ≡ done (find number t xs)
  unfolding attempt_at
  Found-attempt p (inl (m, a, e, q, k)) =
      rw (e, q)
        (let f : find number (number a) xs ≡ some a = find_at number m a xs sorted q in
          rw (sym k, f) refl)
  Found-attempt p (inr (r, e, n, b, a)) = rw e (rw (slot-absent number t r xs b a) refl)

-- On sorted attempts the binary search returns the attempt with the sequence number, or nothing if
-- there is none.
pub get_attempt-find :
    (attempts : Option (List RoundAttempt)) (attempt_id : ℕ)
    → IsSorted number (iter attempts)
    → get_attempt attempts attempt_id ≡ done (find number attempt_id (iter attempts))
unfolding get_attempt find
get_attempt-find none attempt_id sorted = refl
get_attempt-find (some xs) attempt_id sorted =
    Found-attempt attempt_id xs sorted (search number xs attempt_id (length xs) 0 (length xs)) (
      search-Found number attempt_id xs sorted (length xs) 0 (length xs) (omega arith) (omega arith)
        (omega arith) (λ i a h q. absurd (omega arith)) (past_end number attempt_id xs sorted))

-- A move of an attempt keeps its number and a voted block.
pub Move-number :
    (desc : SessionDescription) (src : ℕ) {a b : RoundAttempt}
    → Move desc src a b
    → b.sequence_number ≡ a.sequence_number
Move-number desc src stays = refl
Move-number desc src (votes_for b h) = refl
Move-number desc src (precommits h) = refl
Move-number desc src (proposes b h) = refl

module _ (desc : SessionDescription) (weighed : IsWeighed desc) (sized : IsSized desc) (src : ℕ)
    (known : src < length desc.sources) where
  pub Move-HasVoted :
      {a b : RoundAttempt}
      → Move desc src a b
      → IsAttempt desc a
      → HasVoted desc (iter a.votes)
      → HasVoted desc (iter b.votes)
  Move-HasVoted stays inv h = h
  Move-HasVoted {a} (votes_for b fresh) inv h =
      still_voted desc weighed sized never_same src known a inv b h
  Move-HasVoted (precommits v) inv h = h
  Move-HasVoted (proposes b n) inv h = h

module _ (desc : SessionDescription) where
  -- The attempt `n`, if it is not 0, is in the list and has a voted block.
  abbrev pub VotedAt : List RoundAttempt → ℕ → Type 0
  VotedAt attempts n =
      (n ≡ 0)
      ⊎ ((a : RoundAttempt) × (find number n attempts ≡ some a) × HasVoted desc (iter a.votes))

  -- An attempt that replaces the one with its number, and keeps its voted block, keeps them all.
  pub insert-VotedAt :
      (attempts : List RoundAttempt) (b : RoundAttempt) (n : ℕ)
      → IsSorted number attempts
      → ((a : RoundAttempt)
          → find number (number b) attempts ≡ some a
          → HasVoted desc (iter a.votes)
          → HasVoted desc (iter b.votes))
      → VotedAt attempts n
      → VotedAt (insert number b attempts) n
  insert-VotedAt attempts b n sorted keeps (inl z) = inl z
  insert-VotedAt attempts b n sorted keeps (inr (a, f, h)) = elim (Bool-cases (number b == n)) [
    | inl t ↦
        let e : number b ≡ n = ground arith in
        inr (
          b,
          rw (find-insert number n b attempts sorted, t) refl,
          keeps a (subst (λ k. find number k attempts ≡ some a) (sym e) f) h,
        )
    | inr t ↦ inr (a, rw (find-insert number n b attempts sorted, t) f, h)
  ]
