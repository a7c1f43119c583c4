-- ===== src/Base/Panics.antt =====
-- Code that may panic: a failed `assert!`, an index out of bounds, a division by zero.
use Prim.Native.Nat.{ℕ}
use mathlib.Core.Path.{◌≡◌, refl, subst}
use mathlib.Core.Bool.{Bool, true, false}
use mathlib.Core.Option.{Option, none, some}
use mathlib.Core.List.{List}
use ton_labs_node.Base.Lists.{get_elem?}
use ton_labs_node.Base.Tests.{if◌then◌else◌}

pub data Outcome {ℓ} (A : Type ℓ) : Type ℓ where
  done : A → Outcome A
  panic : Outcome A

infixl 5 ◌>>=◌ ◌>>◌
abbrev pub ◌>>=◌ {ℓ κ} : {A : Type ℓ} {B : Type κ} → Outcome A → (A → Outcome B) → Outcome B
done a >>= f = f a
panic >>= f = panic

abbrev pub ◌>>◌ {ℓ} : {B : Type ℓ} → Outcome (Unit {0}) → Outcome B → Outcome B
m >> k = m >>= λ _. k

-- `assert!`
abbrev pub assert : Bool → Outcome (Unit {0})
assert true = done tt
assert false = panic

-- `unwrap`
abbrev pub unwrap {ℓ} : {A : Type ℓ} → Option A → Outcome A
unwrap none = panic
unwrap (some a) = done a

-- `v[i]` panics when the index is out of bounds.
abbrev pub at {ℓ} : {A : Type ℓ} → List A → ℕ → Outcome A
at xs i = unwrap (get_elem? xs i)

-- A property of every result, which a panic has none of.
abbrev pub Always {ℓ κ} : {A : Type ℓ} → (A → Type κ) → Outcome A → Type (ℓ ⊔ κ)
Always {A} P o = (a : A) → o ≡ done a → P a

module _ {ℓ κ} {B : Type ℓ} (Q : B → Type κ) where
  pub done-Always : (b : B) → Q b → Always Q (done b)
  done-Always b q a e = let s : b ≡ a = cc in subst Q s q

  pub bind-Always {ℓ2} :
      {A : Type ℓ2} (o : Outcome A) {f : A → Outcome B}
      → ((a : A) → o ≡ done a → Always Q (f a))
      → Always Q (o >>= f)
  bind-Always (done a) h b e = h a refl b e
  bind-Always panic h b e = absurd (cc e)

  pub if-Always :
      (t : Bool) {x y : Outcome B}
      → (t ≡ true → Always Q x)
      → (t ≡ false → Always Q y)
      → Always Q (if t then x else y)
  if-Always true h k = h refl
  if-Always false h k = k refl

  pub option-Always {ℓ2} :
      {A : Type ℓ2} (o : Option A) {x : Outcome B} {f : A → Outcome B}
      → Always Q x
      → ((a : A) → Always Q (f a))
      → Always Q (elim o [ none ↦ x | some a ↦ f a ])
  option-Always none h k = h
  option-Always (some a) h k = k a
