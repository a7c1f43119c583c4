-- ===== src/Session/Merge.antt =====
-- The merges of plain values and of options (validator-session/src/utils.rs), and the comparison
-- of pooled objects.
use ton_labs_node.Base.{
  Bool, true, false, ◌||◌, ◌≡◌, refl, Option, none, some, if◌then◌else◌, Outcome, done, ◌>>=◌,
  arith,
}

-- `==` on objects of the session cache compares addresses. All that is known of it is that equal
-- objects have the same contents: an object that left the cache may be created again.
pub record Same {ℓ} (A : Type ℓ) : Type ℓ where
  pub same : A → A → Bool
  pub same_sound : (a b : A) → same a b ≡ true → a ≡ b

-- `impl Merge<bool> for bool`
unfoldable pub merge_bool : Bool → Bool → Outcome Bool
merge_bool left right = done (left || right)

abbrev pub both_bools : Bool → Bool → Bool
both_bools true b = b
both_bools false true = false
both_bools false false = true

pub both_bools_sound : (a b : Bool) → both_bools a b ≡ true → a ≡ b
both_bools_sound true true h = refl
both_bools_sound true false h = ground arith
both_bools_sound false true h = ground arith
both_bools_sound false false h = refl

abbrev pub bool_same : Same Bool
bool_same = record { same = both_bools; same_sound = both_bools_sound }

pub absurd_same {ℓ} : {A : Type ℓ} (a b : A) → false ≡ true → a ≡ b
absurd_same a b h = cc

-- Addresses that never agree, as after a cache eviction: the comparison with the least knowledge.
abbrev pub never_same {ℓ} : {A : Type ℓ} → Same A
never_same = record { same = λ a b. false; same_sound = absurd_same }

module _ {ℓ} {A : Type ℓ} (s : Same A) (merge : A → A → Outcome A) where
  -- `impl Merge<Option<T>> for Option<T>`
  unfoldable pub merge_option : Option A → Option A → Outcome (Option A)
  merge_option none right = done right
  merge_option (some l) none = done (some l)
  merge_option (some l) (some r) =
      if s.same l r then done (some l) else (do m ← merge l r; done (some m))

-- A merge that gives back what it merges with itself.
abbrev pub IsIdempotent {ℓ} : {A : Type ℓ} → (A → A → Outcome A) → Type ℓ
IsIdempotent {A} merge = (a : A) → merge a a ≡ done a

pub merge_bool-IsIdempotent : IsIdempotent merge_bool
unfolding merge_bool
merge_bool-IsIdempotent true = refl
merge_bool-IsIdempotent false = refl

pub merge_option-IsIdempotent {ℓ} :
    {A : Type ℓ} (s : Same A) (merge : A → A → Outcome A)
    → IsIdempotent merge
    → IsIdempotent (merge_option s merge)
unfolding merge_option
merge_option-IsIdempotent s merge h none = refl
merge_option-IsIdempotent s merge h (some a) = ground (arith, h a)

-- Options of pooled objects are the same when both are absent or the objects are the same.
module _ {ℓ} {A : Type ℓ} (s : Same A) where
  abbrev pub same_options : Option A → Option A → Bool
  same_options none none = true
  same_options none (some b) = false
  same_options (some a) none = false
  same_options (some a) (some b) = s.same a b

  pub same_options_sound : (a b : Option A) → same_options a b ≡ true → a ≡ b
  same_options_sound none none h = refl
  same_options_sound none (some b) h = ground arith
  same_options_sound (some a) none h = ground arith
  same_options_sound (some a) (some b) h = ground (arith, s.same_sound a b h)

  abbrev pub option_same : Same (Option A)
  option_same = record { same = same_options; same_sound = same_options_sound }
