-- ===== src/Prelude/Strings.antt =====
-- Go strings and byte slices as lists of byte values, with `bytes.Compare`, `==` and the tests of
-- package `strings`.
use Prim.Native.Nat.{ℕ, zero, suc, ◌/◌, ◌%◌, ◌<◌, ◌^◌, compare, Ordering}
use Prim.Native.Char.{code}
use Prim.Native.String.{String}
use mathlib.Core.Path.{◌≡◌, refl}
use mathlib.Core.Bool.{Bool, true, false, ◌||◌, ◌&&◌}
use mathlib.Core.List.{List, [], ◌∷◌, ◌++◌, reverse}
use native.Mathlib.Omega.{arith}
use native.Mathlib.Nat.{pow-suc}
use biscuit_go.Prelude.Tests.{◌==◌}
use biscuit_go.Prelude.Order.{then_compare, opposite}

abbrev pub Bytes : Type 0
Bytes = List ℕ

-- The code points of a text: its bytes, for an ASCII text.
abbrev pub codes : String → Bytes
codes String.[] = []
codes (String.◌∷◌ c s) = code c ∷ codes s

-- `bytes.Compare` and `strings.Compare`: lexicographic.
unfoldable pub compare_bytes : Bytes → Bytes → Ordering
compare_bytes [] [] = Ordering.eq
compare_bytes [] (b ∷ bs) = Ordering.lt
compare_bytes (a ∷ as_) [] = Ordering.gt
compare_bytes (a ∷ as_) (b ∷ bs) = then_compare (compare a b) (compare_bytes as_ bs)

-- `==` of strings, `bytes.Equal`.
unfoldable pub bytes_eq : Bytes → Bytes → Bool
bytes_eq [] [] = true
bytes_eq [] (b ∷ bs) = false
bytes_eq (a ∷ as_) [] = false
bytes_eq (a ∷ as_) (b ∷ bs) = (a == b) && bytes_eq as_ bs

-- `strings.HasPrefix s p`.
unfoldable pub has_prefix : Bytes → Bytes → Bool
has_prefix s [] = true
has_prefix [] (p ∷ ps) = false
has_prefix (c ∷ s) (p ∷ ps) = (c == p) && has_prefix s ps

-- `strings.HasSuffix s p`.
unfoldable pub has_suffix : Bytes → Bytes → Bool
unfolding has_prefix
has_suffix s p = has_prefix (reverse s) (reverse p)

-- `strings.Contains s p`.
unfoldable pub contains_bytes : Bytes → Bytes → Bool
unfolding has_prefix
contains_bytes [] p = has_prefix [] p
contains_bytes (c ∷ s) p = has_prefix (c ∷ s) p || contains_bytes s p

-- The eight bytes that `PutUint64` of `binary.LittleEndian` writes, and the last `n` of them.
unfoldable pub little_endian : ℕ → ℕ → Bytes
little_endian zero v = []
little_endian (suc n) v = (v % 256) ∷ little_endian n (v / 256)

pub bytes_eq_refl : (a : Bytes) → bytes_eq a a ≡ true
unfolding bytes_eq
bytes_eq_refl [] = refl
bytes_eq_refl (a ∷ as_) = ground (arith, bytes_eq_refl as_)

pub bytes_eq-eq : (a b : Bytes) → bytes_eq a b ≡ true → a ≡ b
unfolding bytes_eq
bytes_eq-eq [] [] h = refl
bytes_eq-eq [] (b ∷ bs) h = cc
bytes_eq-eq (a ∷ as_) [] h = cc
bytes_eq-eq (a ∷ as_) (b ∷ bs) h = ground (arith, bytes_eq-eq as_ bs)

pub compare_bytes_refl : (a : Bytes) → compare_bytes a a ≡ Ordering.eq
unfolding compare_bytes
compare_bytes_refl [] = refl
compare_bytes_refl (a ∷ as_) = ground (arith, compare_bytes_refl as_)

pub compare_bytes-eq : (a b : Bytes) → compare_bytes a b ≡ Ordering.eq → a ≡ b
unfolding compare_bytes
compare_bytes-eq [] [] h = refl
compare_bytes-eq [] (b ∷ bs) h = cc
compare_bytes-eq (a ∷ as_) [] h = cc
compare_bytes-eq (a ∷ as_) (b ∷ bs) h = ground (arith, compare_bytes-eq as_ bs)

pub compare_bytes-opposite : (a b : Bytes) → compare_bytes b a ≡ opposite (compare_bytes a b)
unfolding compare_bytes
compare_bytes-opposite [] [] = refl
compare_bytes-opposite [] (b ∷ bs) = refl
compare_bytes-opposite (a ∷ as_) [] = refl
compare_bytes-opposite (a ∷ as_) (b ∷ bs) = ground (arith, compare_bytes-opposite as_ bs)

pub has_prefix-append : (p s : Bytes) → has_prefix (p ++ s) p ≡ true
unfolding has_prefix
has_prefix-append [] s = refl
has_prefix-append (c ∷ p) s = ground (arith, has_prefix-append p s)

-- Equal bytes come from equal numbers, up to the size that the bytes can hold.
pub little_endian-injective :
    (n v w : ℕ) (s t : Bytes)
    → little_endian n v ++ s ≡ little_endian n w ++ t
    → v < 256 ^ n
    → w < 256 ^ n
    → v ≡ w
unfolding little_endian
little_endian-injective zero v w s t h hv hw = omega arith
little_endian-injective (suc n) v w s t h hv hw =
    let low : v % 256 ≡ w % 256 = cc in
    let high : v / 256 ≡ w / 256 =
      little_endian-injective n (v / 256) (w / 256) s t (cc) (omega (arith, pow-suc 256 n))
        (omega (arith, pow-suc 256 n)) in
    omega arith
