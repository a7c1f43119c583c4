-- ===== src/Session/Round/Merging.antt =====
-- validator-session/src/round.rs: the merge of two states of one round (`impl Merge`).
pub mod Scanning
use ton_labs_node.Base.{
  ℕ, Bool, true, false, not, ◌||◌, ◌&&◌, ◌≡◌, List, [], ◌∷◌, ◌++◌, min, max, ltb, leb, ◌==◌,
  if◌then◌else◌, Option, none, some, is_some, Outcome, done, panic, assert, ◌>>=◌, ◌>>◌, arith,
}
use ton_labs_node.Session.Description.{SessionDescription}
use ton_labs_node.Session.Merge.{Same, merge_option, option_same}
use ton_labs_node.Session.Vector
use ton_labs_node.Session.SortedVector
use ton_labs_node.Session.SortedVector.{iter}
use ton_labs_node.Session.SentBlock
use ton_labs_node.Session.SentBlock.{SentBlockPtr}
use ton_labs_node.Session.BlockCandidate
use ton_labs_node.Session.BlockCandidate.{BlockCandidate, Signature, merge_signatures}
use ton_labs_node.Session.Attempt
use ton_labs_node.Session.Attempt.{
  RoundAttempt, AttemptPool, get_voted_block, check_attempt_is_precommitted,
}
use ton_labs_node.Session.Round.{RoundState}

-- The comparisons of the pooled objects that a merge of rounds meets.
pub record MergePool : Type 0 where
  pub numbers : Same (List ℕ)
  pub in_attempt : AttemptPool
  pub attempt : Same RoundAttempt
  pub attempts : Same (List RoundAttempt)
  pub signature : Same Signature
  pub candidate : Same BlockCandidate
  pub candidates : Same (List BlockCandidate)

-- `==` on `u32`
pub number_sound : (a b : ℕ) → (a == b) ≡ true → a ≡ b
number_sound a b h = ground arith

abbrev pub number_same : Same ℕ
number_same = record { same = λ a b. a == b; same_sound = number_sound }

-- The earlier of two first attempts; 0 stands for none.
unfoldable pub merge_first : ℕ → ℕ → Outcome ℕ
merge_first left right =
    done (if left == 0 then right else if right == 0 then left else min left right)

-- `diversed_voted_blocks` and what goes with it: how many voted blocks were found, the first of them,
-- and the attempts of both.
pub record Diversed : Type 0 where
  pub first_block : SentBlockPtr
  pub first_attempt : ℕ
  pub second_attempt : ℕ
  pub count : ℕ

abbrev pub no_blocks : Diversed
no_blocks = record { first_block = none; first_attempt = 0; second_attempt = 0; count = 0 }

-- The voted block of an attempt is saved, unless it is the one that was found before.
unfoldable pub note_voted : Diversed → ℕ → Option SentBlockPtr → Diversed
note_voted d attempt_id none = d
note_voted d attempt_id (some block) =
    if d.count == 0
    then record { first_block = block; first_attempt = attempt_id; second_attempt = 0; count = 1 }
    else if SentBlock.get_id d.first_block == SentBlock.get_id block
    then d
    else record d { second_attempt = attempt_id; count = 2 }

module _ (desc : SessionDescription) where
  voted_or_none : Diversed → RoundAttempt → Outcome (Option SentBlockPtr)
  voted_or_none d attempt = if leb d.count 1 then get_voted_block desc attempt else done none

  -- An attempt whose precommits reach the cutoff locks its voted block, if none is locked.
  lock_at : Option SentBlockPtr → RoundAttempt → Outcome (Option SentBlockPtr)
  lock_at (some block) attempt = done (some block)
  lock_at none attempt = check_attempt_is_precommitted desc attempt >>= λ precommitted.
      if precommitted
      then (get_voted_block desc attempt >>= λ block. assert (is_some block) >> done block)
      else done none

  -- The loop over the attempts, the newest first.
  pub scan :
      Diversed → Option SentBlockPtr → List RoundAttempt → Outcome (Diversed × Option SentBlockPtr)
  unfolding note_voted voted_or_none lock_at
  scan d locked [] = done (d, locked)
  scan d locked (attempt ∷ attempts) = do
    block ← voted_or_none d attempt
    let next = note_voted d attempt.sequence_number block
    now_locked ← lock_at locked attempt
    let rest = scan next now_locked attempts
    if is_some now_locked && next.count == 2 then done (next, now_locked) else rest

-- `get_iter().rev()`
newest_first : List RoundAttempt → List RoundAttempt
newest_first [] = []
newest_first (attempt ∷ attempts) = newest_first attempts ++ attempt ∷ []

-- The later of two last precommits, if it is later than the second voted block.
merge_last : Diversed → ℕ → ℕ → Outcome ℕ
merge_last d left right =
    let last = max left right in
    if d.count == 0
    then (assert (last == 0) >> done last)
    else done (if ltb d.second_attempt last then last else 0)

-- Blocks locked on both sides have one identifier.
locks_agree : Option SentBlockPtr → Option SentBlockPtr → Bool
locks_agree (some l) (some r) = SentBlock.get_id l == SentBlock.get_id r
locks_agree none right = true
locks_agree (some l) none = true

pub merge : MergePool → SessionDescription → RoundState → RoundState → Outcome RoundState
unfolding merge_first scan newest_first merge_last locks_agree
merge pool desc left right = do
  assert (left.sequence_number == right.sequence_number)
  first_attempt ←
      Vector.merge_wrapped number_same false merge_first pool.numbers left.first_attempt
        right.first_attempt
  attempts ←
      SortedVector.merge_wrapped (λ a. a.sequence_number) pool.attempt
        (Attempt.merge pool.in_attempt) pool.attempts left.attempts right.attempts
  assert (locks_agree left.precommitted_block right.precommitted_block)
  locked ←
      merge_option (option_same pool.in_attempt.sent_block) (λ l r. done (SentBlock.merge l r))
        left.precommitted_block right.precommitted_block
  scanned ← scan desc no_blocks locked (newest_first (iter attempts))
  let d = scanned.0
  assert (d.count == 0 || ltb d.second_attempt d.first_attempt)
  last_precommit ←
      Vector.merge_wrapped number_same true (merge_last d) pool.numbers left.last_precommit
        right.last_precommit
  signatures ← merge_signatures pool.signature left.signatures right.signatures
  sent_blocks ←
      SortedVector.merge_wrapped BlockCandidate.get_id pool.candidate
        (BlockCandidate.merge pool.signature) pool.candidates left.sent_blocks right.sent_blocks
  done (record left {
    precommitted_block = scanned.1;
    first_attempt = first_attempt;
    last_precommit = last_precommit;
    sent_blocks = sent_blocks;
    signatures = signatures;
    attempts = attempts;
  })
