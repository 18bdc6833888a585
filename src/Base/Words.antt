-- ===== src/Base/Words.antt =====
-- Fixed-width numbers as bytes: `to_le_bytes`, `from_le_bytes`, `to_be_bytes`, `from_be_bytes`.
-- A byte is a number below 256, and a byte sequence is a list of numbers.
use Prim.Native.Nat.{ℕ, zero, suc, ◌+◌, ◌*◌, ◌/◌, ◌%◌, ◌^◌, ◌<◌}
use mathlib.Core.Path.{◌≡◌, refl, ap, ◌∙◌}
use mathlib.Core.List.{List, [], ◌∷◌, reverse, reverse-reverse}
use mathlib.Core.Bool.{Bool, true, false, ◌&&◌}
use mathlib.Core.Logic.{◌≢◌, inl, inr}
use factory_cacher.Base.Tests.{◌==◌, Bool-cases}
use native.Mathlib.Omega.{arith}
use native.Mathlib.Nat.{pow-suc}
use factory_cacher.Base.Lists.{length, length-reverse, All}

abbrev pub Bytes : Type 0
Bytes = List ℕ

abbrev pub IsByte : ℕ → Type 0
IsByte b = b < 256

-- The `w` lowest bytes of a number, least significant first.
unfoldable pub le_bytes : ℕ → ℕ → Bytes
le_bytes zero x = []
le_bytes (suc w) x = (x % 256) ∷ le_bytes w (x / 256)

unfoldable pub of_le : Bytes → ℕ
of_le [] = 0
of_le (b ∷ bs) = b + 256 * of_le bs

unfoldable pub be_bytes : ℕ → ℕ → Bytes
unfolding le_bytes
be_bytes w x = reverse (le_bytes w x)

unfoldable pub of_be : Bytes → ℕ
unfolding of_le
of_be bs = of_le (reverse bs)

pub length-le_bytes : (w x : ℕ) → length (le_bytes w x) ≡ w
unfolding le_bytes
length-le_bytes zero x = refl
length-le_bytes (suc w) x = ap suc (length-le_bytes w (x / 256))

pub length-be_bytes : (w x : ℕ) → length (be_bytes w x) ≡ w
unfolding be_bytes
length-be_bytes w x = length-reverse (le_bytes w x) ∙ length-le_bytes w x

pub of_le-le_bytes : (w x : ℕ) → x < 256 ^ w → of_le (le_bytes w x) ≡ x
unfolding of_le le_bytes
of_le-le_bytes zero x h = omega arith
of_le-le_bytes (suc w) x h =
    omega (arith, of_le-le_bytes w (x / 256) (omega (arith, pow-suc 256 w)))

pub of_be-be_bytes : (w x : ℕ) → x < 256 ^ w → of_be (be_bytes w x) ≡ x
unfolding of_be be_bytes
of_be-be_bytes w x h = ap of_le (reverse-reverse (le_bytes w x)) ∙ of_le-le_bytes w x h

pub le_bytes-IsByte : (w x : ℕ) → All IsByte (le_bytes w x)
unfolding le_bytes
le_bytes-IsByte zero x = tt
le_bytes-IsByte (suc w) x = (omega arith, le_bytes-IsByte w (x / 256))

-- Equality of byte sequences.
unfoldable pub same_bytes : Bytes → Bytes → Bool
same_bytes [] [] = true
same_bytes (a ∷ r) (b ∷ s) = a == b && same_bytes r s
same_bytes _ _ = false

pub same_bytes_refl : (a : Bytes) → same_bytes a a ≡ true
unfolding same_bytes
same_bytes_refl [] = refl
same_bytes_refl (a ∷ r) = ground (arith, same_bytes_refl r)

pub same_bytes→eq : (a b : Bytes) → same_bytes a b ≡ true → a ≡ b
unfolding same_bytes
same_bytes→eq [] [] h = refl
same_bytes→eq [] (b ∷ bs) h = cc
same_bytes→eq (a ∷ r) [] h = cc
same_bytes→eq (a ∷ r) (b ∷ bs) h = ground (arith, same_bytes→eq r bs)

pub same_bytes-ne : (a b : Bytes) → a ≢ b → same_bytes a b ≡ false
same_bytes-ne a b ne = elim (Bool-cases (same_bytes a b)) [
  | inl same ↦ absurd (ne (same_bytes→eq a b same))
  | inr other ↦ other
]
