-- ===== src/Storage/Bytes.antt =====
-- Bytes of words, written and read with the low byte first (`to_le_bytes`, `read_le_u16` to
-- `read_le_u64`), and the reading of a number of bytes (`read_exact`). A reader is the bytes that it
-- has left.
use native.Mathlib.Nat.{pow-suc}
use ton_labs_node.Base.{
  ℕ, zero, suc, ◌+◌, ◌*◌, ◌/◌, ◌%◌, ◌^◌, ◌<◌, ◌≡◌, refl, subst, ap, List, [], ◌∷◌, ◌++◌, length,
  arith,
}

pub data Error : Type 0 where
  unexpected_eof bad_magic invalid_utf8 package_too_short header_mismatch end_of_package
        not_writable :
      Error

pub data Result {ℓ} (A : Type ℓ) : Type ℓ where
  ok : A → Result A
  err : Error → Result A

infixl 5 ◌>>=◌
abbrev pub ◌>>=◌ {ℓ κ} : {A : Type ℓ} {B : Type κ} → Result A → (A → Result B) → Result B
ok a >>= f = f a
err e >>= f = err e

-- The `k` low bytes of a number.
unfoldable pub le_bytes : ℕ → ℕ → List ℕ
le_bytes zero n = []
le_bytes (suc k) n = n % 256 ∷ le_bytes k (n / 256)

unfoldable pub le_value : List ℕ → ℕ
le_value [] = 0
le_value (b ∷ bs) = b + 256 * le_value bs

unfoldable pub read_exact : ℕ → List ℕ → Result (List ℕ × List ℕ)
read_exact zero reader = ok ([], reader)
read_exact (suc k) [] = err unexpected_eof
read_exact (suc k) (b ∷ reader) = do (bytes, rest) ← read_exact k reader; ok (b ∷ bytes, rest)

unfoldable pub read_le : ℕ → List ℕ → Result (ℕ × List ℕ)
unfolding read_exact le_value
read_le k reader = do (bytes, rest) ← read_exact k reader; ok (le_value bytes, rest)

pub length-le_bytes : (k n : ℕ) → length (le_bytes k n) ≡ k
unfolding le_bytes
length-le_bytes zero n = refl
length-le_bytes (suc k) n = ap suc (length-le_bytes k (n / 256))

le_value-le_bytes : (k n : ℕ) → n < 256 ^ k → le_value (le_bytes k n) ≡ n
unfolding le_bytes le_value
le_value-le_bytes zero n h = grind arith
le_value-le_bytes (suc k) n h =
    let small : n / 256 < 256 ^ k = omega (arith, pow-suc 256 k) in
    omega (arith, le_value-le_bytes k (n / 256) small)

-- What has been written is read, and the rest is left.
pub read_exact-append :
    (bytes rest : List ℕ) → read_exact (length bytes) (bytes ++ rest) ≡ ok (bytes, rest)
unfolding read_exact
read_exact-append [] rest = refl
read_exact-append (b ∷ bytes) rest = rw (read_exact-append bytes rest) refl

pub read_le-le_bytes :
    (k n : ℕ) (rest : List ℕ) → n < 256 ^ k → read_le k (le_bytes k n ++ rest) ≡ ok (n, rest)
unfolding read_le
read_le-le_bytes k n rest h =
    let bytes = le_bytes k n in
    let e : read_exact k (bytes ++ rest) ≡ ok (bytes, rest) =
      subst (λ j. read_exact j (bytes ++ rest) ≡ ok (bytes, rest)) (length-le_bytes k n)
        (read_exact-append bytes rest) in
    rw e (ap (λ v. ok (v, rest)) (le_value-le_bytes k n h))
