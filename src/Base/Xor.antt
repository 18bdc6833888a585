-- ===== src/Base/Xor.antt =====
-- The exclusive or of two numbers, `^` in the source, by its lowest digit, and its laws.
use Prim.Native.Nat.{
  ℕ, zero, suc, ◌+◌, ◌*◌, ◌/◌, ◌%◌, ◌^◌, ◌≤◌, ◌<◌, bit_xor, digits, differ, bit_xor-bitwise,
}
use mathlib.Core.Path.{◌≡◌, refl, sym, ap, ap₂, ◌∙◌}
use native.Mathlib.Omega.{arith}
use native.Mathlib.Nat.{
  le_refl, pow-suc, div-one, mod-one, div-div-eq-div-mul, mod-eq-sub-div-mul, mod-add-div',
}

-- Enough fuel for the digits is as good as any other.
digits-enough : (n a b : ℕ) → a ≤ n → digits (λ y. y) differ n a b ≡ digits (λ y. y) differ a a b
digits-enough n a b enough = both n a a b enough (le_refl a)
  where
    both :
        (n m a b : ℕ) → a ≤ n → a ≤ m → digits (λ y. y) differ n a b ≡ digits (λ y. y) differ m a b
    both n m zero b p q = run_out n b ∙ sym (run_out m b)
      where
        run_out : (n b : ℕ) → digits (λ y. y) differ n 0 b ≡ b
        run_out zero b = refl
        run_out (suc n) b = refl
    both zero m (suc a) b p q = absurd (omega arith)
    both (suc n) zero (suc a) b p q = absurd (omega arith)
    both (suc n) (suc m) (suc a) b p q =
        ap (λ (higher : ℕ). higher * 2 + differ (suc a % 2) (b % 2))
          (both n m (suc a / 2) (b / 2) (omega arith) (omega arith))

pub bit_xor-zero : (b : ℕ) → bit_xor 0 b ≡ b
bit_xor-zero b = simp bit_xor-bitwise refl

pub bit_xor_step : (a b : ℕ) → bit_xor a b ≡ bit_xor (a / 2) (b / 2) * 2 + differ (a % 2) (b % 2)
bit_xor_step zero b = simp (bit_xor-zero) (omega arith)
bit_xor_step (suc a) b =
    simp bit_xor-bitwise (omega (arith, digits-enough a (suc a / 2) (b / 2) (omega arith)))

differ-sum : (x y : ℕ) → x < 2 → y < 2 → differ x y ≡ (x + y) % 2
differ-sum zero y hx hy = omega arith
differ-sum (suc zero) zero hx hy = refl
differ-sum (suc zero) (suc zero) hx hy = refl
differ-sum (suc zero) (suc (suc y)) hx hy = absurd (omega arith)
differ-sum (suc (suc x)) y hx hy = absurd (omega arith)

differ-zero : (x : ℕ) → differ x 0 ≡ x
differ-zero zero = refl
differ-zero (suc x) = refl

differ_self : (x : ℕ) → differ x x ≡ 0
differ_self zero = refl
differ_self (suc x) = differ_self x

-- The lowest digit of the result is the sum of those of the arguments, without the carry.
pub bit_xor-sum : (a b : ℕ) → bit_xor a b ≡ bit_xor (a / 2) (b / 2) * 2 + (a % 2 + b % 2) % 2
bit_xor-sum a b =
    omega (arith, bit_xor_step a b, differ-sum (a % 2) (b % 2) (omega arith) (omega arith))

bit_xor-half : (a b : ℕ) → bit_xor a b / 2 ≡ bit_xor (a / 2) (b / 2)
bit_xor-half a b = omega (arith, bit_xor-sum a b)

bit_xor-digit : (a b : ℕ) → bit_xor a b % 2 ≡ (a % 2 + b % 2) % 2
bit_xor-digit a b = omega (arith, bit_xor-sum a b)

pub bit_xor-zero_right : (a : ℕ) → bit_xor a 0 ≡ a
bit_xor-zero_right a = upto a a (le_refl a)
  where
    upto : (n a : ℕ) → a ≤ n → bit_xor a 0 ≡ a
    upto n zero h = bit_xor-zero 0
    upto zero (suc a) h = absurd (omega arith)
    upto (suc n) (suc a) h = omega (arith, bit_xor-sum (suc a) 0, upto n (suc a / 2) (omega arith))

pub bit_xor_self : (a : ℕ) → bit_xor a a ≡ 0
bit_xor_self a = upto a a (le_refl a)
  where
    upto : (n a : ℕ) → a ≤ n → bit_xor a a ≡ 0
    upto n zero h = bit_xor-zero 0
    upto zero (suc a) h = absurd (omega arith)
    upto (suc n) (suc a) h =
        omega (arith, bit_xor-sum (suc a) (suc a), upto n (suc a / 2) (omega arith))

pub bit_xor_comm : (a b : ℕ) → bit_xor a b ≡ bit_xor b a
bit_xor_comm a b = upto a a b (le_refl a)
  where
    upto : (n a b : ℕ) → a ≤ n → bit_xor a b ≡ bit_xor b a
    upto n zero b h = bit_xor-zero b ∙ sym (bit_xor-zero_right b)
    upto zero (suc a) b h = absurd (omega arith)
    upto (suc n) (suc a) b h = omega (
      arith,
      bit_xor-sum (suc a) b,
      bit_xor-sum b (suc a),
      upto n (suc a / 2) (b / 2) (omega arith),
    )

pub bit_xor_assoc : (a b c : ℕ) → bit_xor (bit_xor a b) c ≡ bit_xor a (bit_xor b c)
bit_xor_assoc a b c = upto a a b c (le_refl a)
  where
    upto : (n a b c : ℕ) → a ≤ n → bit_xor (bit_xor a b) c ≡ bit_xor a (bit_xor b c)
    upto n zero b c h =
        ap (λ (x : ℕ). bit_xor x c) (bit_xor-zero b) ∙ sym (bit_xor-zero (bit_xor b c))
    upto zero (suc a) b c h = absurd (omega arith)
    upto (suc n) (suc a) b c h = omega (
      arith,
      bit_xor-sum (bit_xor (suc a) b) c,
      bit_xor-sum (suc a) (bit_xor b c),
      bit_xor-digit (suc a) b,
      bit_xor-digit b c,
      ap (λ (x : ℕ). bit_xor x (c / 2)) (bit_xor-half (suc a) b),
      ap (bit_xor (suc a / 2)) (bit_xor-half b c),
      upto n (suc a / 2) (b / 2) (c / 2) (omega arith),
    )

pub bit_xor-lt : (k a b : ℕ) → a < 2 ^ k → b < 2 ^ k → bit_xor a b < 2 ^ k
bit_xor-lt zero a b ha hb = omega (arith, ap₂ bit_xor (small a ha) (small b hb))
  where
    small : (a : ℕ) → a < 2 ^ 0 → a ≡ 0
    small a h = omega arith
bit_xor-lt (suc k) a b ha hb = omega (
  arith,
  pow-suc 2 k,
  bit_xor-sum a b,
  bit_xor-lt k (a / 2) (b / 2) (omega (arith, pow-suc 2 k)) (omega (arith, pow-suc 2 k)),
)

shifted : (k x : ℕ) → x / 2 ^ suc k ≡ x / 2 / 2 ^ k
shifted k x = ap (λ (d : ℕ). x / d) (two-pow k) ∙ sym (div-div-eq-div-mul x 2 (2 ^ k))
  where
    two-pow : (k : ℕ) → 2 ^ suc k ≡ 2 * 2 ^ k
    two-pow k = omega (arith, pow-suc 2 k)

masked : (k x : ℕ) → x % 2 ^ suc k ≡ (x / 2 % 2 ^ k) * 2 + x % 2
masked k x = omega (
  arith,
  mod-eq-sub-div-mul x (2 ^ suc k),
  mod-eq-sub-div-mul (x / 2) (2 ^ k),
  ap₂ ◌*◌ (shifted k x) (pow-suc 2 k),
  div-mul-le (x / 2) (2 ^ k),
)
  where
    div-mul-le : (x d : ℕ) → x / d * d ≤ x
    div-mul-le x d = omega (arith, mod-add-div' x d)

-- The digits from `k` on of the result are those of the arguments.
pub bit_xor-div : (k a b : ℕ) → bit_xor a b / 2 ^ k ≡ bit_xor (a / 2 ^ k) (b / 2 ^ k)
bit_xor-div zero a b = div-one (bit_xor a b) ∙ sym (ap₂ bit_xor (div-one a) (div-one b))
bit_xor-div (suc k) a b =
    shifted k (bit_xor a b)
    ∙ ap (λ (x : ℕ). x / 2 ^ k) (bit_xor-half a b)
    ∙ bit_xor-div k (a / 2) (b / 2)
    ∙ sym (ap₂ bit_xor (shifted k a) (shifted k b))

-- The digits below `k` of the result are those of the arguments.
pub bit_xor-mod : (k a b : ℕ) → bit_xor a b % 2 ^ k ≡ bit_xor (a % 2 ^ k) (b % 2 ^ k)
bit_xor-mod zero a b =
    mod-one (bit_xor a b) ∙ sym (ap₂ bit_xor (mod-one a) (mod-one b) ∙ bit_xor-zero 0)
bit_xor-mod (suc k) a b = omega (
  arith,
  masked k (bit_xor a b),
  masked k a,
  masked k b,
  ap (λ (x : ℕ). x % 2 ^ k) (bit_xor-half a b),
  bit_xor-mod k (a / 2) (b / 2),
  bit_xor-digit a b,
  bit_xor-sum (a % 2 ^ suc k) (b % 2 ^ suc k),
  ap₂ bit_xor (half a) (half b),
)
  where
    half : (x : ℕ) → x % 2 ^ suc k / 2 ≡ x / 2 % 2 ^ k
    half x = omega (arith, masked k x)
