-- ===== src/Prelude/Digits.antt =====
-- `&`, `|` and `^` at every width: one equation for the lowest binary digit, and from it the
-- splitting of an operation at a bit position.
use Prim.Native.Nat.{
  ℕ, zero, suc, ◌+◌, ◌-◌, ◌*◌, ◌/◌, ◌%◌, ◌^◌, ◌≤◌, ◌<◌, min, max, differ, bit_and, bit_or, bit_xor,
  digits, bitwise, bit_and-bitwise, bit_or-bitwise, bit_xor-bitwise,
}
use mathlib.Core.Path.{◌≡◌, refl, ap}
use native.Mathlib.Nat.{le_refl, pow-suc, one-le-pow, mod-lt, div-add-mod'}
use native.Mathlib.Omega.{arith}

-- The recursion behind the native operations takes fuel; any sufficient fuel gives one value. `z` is
-- what is left of the second number once the first is zero.
module _ (z : ℕ → ℕ) (f : ℕ → ℕ → ℕ) where
  fuel_irrelevant : (a b n m : ℕ) → a ≤ n → a ≤ m → digits z f n a b ≡ digits z f m a b
  fuel_irrelevant zero b zero zero enough also = refl
  fuel_irrelevant zero b zero (suc m) enough also = refl
  fuel_irrelevant zero b (suc n) zero enough also = refl
  fuel_irrelevant zero b (suc n) (suc m) enough also = refl
  fuel_irrelevant (suc a) b zero m enough also = absurd (omega arith)
  fuel_irrelevant (suc a) b (suc n) zero enough also = absurd (omega arith)
  fuel_irrelevant (suc a) b (suc n) (suc m) enough also =
      rw (fuel_irrelevant (suc a / 2) (b / 2) n m (omega arith) (omega arith))

  lowest_digit :
      {op : ℕ → ℕ → ℕ}
      → ((a b : ℕ) → op a b ≡ bitwise z f a b)
      → ((b : ℕ) → z b ≡ z (b / 2) * 2 + f 0 (b % 2))
      → (a b : ℕ) → op a b ≡ op (a / 2) (b / 2) * 2 + f (a % 2) (b % 2)
  lowest_digit native rest zero b = omega (arith, native zero b, native zero (b / 2), rest b)
  lowest_digit native rest (suc a) b = omega (
    arith,
    native (suc a) b,
    native (suc a / 2) (b / 2),
    fuel_irrelevant (suc a / 2) (b / 2) a (suc a / 2) (omega arith) (le_refl _),
  )

pub bit_and_step : (a b : ℕ) → bit_and a b ≡ bit_and (a / 2) (b / 2) * 2 + min (a % 2) (b % 2)
bit_and_step = lowest_digit (λ y. 0) min bit_and-bitwise (λ b. omega arith)

pub bit_or_step : (a b : ℕ) → bit_or a b ≡ bit_or (a / 2) (b / 2) * 2 + max (a % 2) (b % 2)
bit_or_step = lowest_digit (λ y. y) max bit_or-bitwise (λ b. omega arith)

-- A binary operation that works digit by digit.
pub record IsDigitwise (op f : ℕ → ℕ → ℕ) : Type 0 where
  pub step : (a b : ℕ) → op a b ≡ op (a / 2) (b / 2) * 2 + f (a % 2) (b % 2)
  pub digit : (a b : ℕ) → a < 2 → b < 2 → f a b < 2
  pub at_zero : op 0 0 ≡ 0

pub mul-pow-suc : (q k : ℕ) → q * 2 ^ suc k ≡ 2 * (q * 2 ^ k)
mul-pow-suc q k = omega (arith, ap (λ (t : ℕ). q * t) (pow-suc 2 k))

module _ {op f : ℕ → ℕ → ℕ} (d : IsDigitwise op f) where
  -- An operation of two numbers, each cut at bit k, is that of the high parts and of the low parts.
  pub digitwise_split :
      (k a b r s : ℕ)
      → r < 2 ^ k
      → s < 2 ^ k
      → op (a * 2 ^ k + r) (b * 2 ^ k + s) ≡ op a b * 2 ^ k + op r s
  digitwise_split zero a b zero zero p q = ground (arith, d.at_zero)
  digitwise_split zero a b (suc r) s p q = absurd (omega arith)
  digitwise_split zero a b zero (suc s) p q = absurd (omega arith)
  digitwise_split (suc k) a b r s p q = ground (
    arith,
    d.step (a * 2 ^ suc k + r) (b * 2 ^ suc k + s),
    d.step r s,
    mul-pow-suc a k,
    mul-pow-suc b k,
    mul-pow-suc (op a b) k,
    pow-suc 2 k,
    digitwise_split k a b (r / 2) (s / 2),
  )

  pub digitwise-lt : (k a b : ℕ) → a < 2 ^ k → b < 2 ^ k → op a b < 2 ^ k
  digitwise-lt zero zero zero p q = omega (arith, d.at_zero)
  digitwise-lt zero (suc a) b p q = absurd (omega arith)
  digitwise-lt zero zero (suc b) p q = absurd (omega arith)
  digitwise-lt (suc k) a b p q = omega (
    arith,
    d.step a b,
    d.digit (a % 2) (b % 2) (omega arith) (omega arith),
    pow-suc 2 k,
    digitwise-lt k (a / 2) (b / 2) (omega (arith, pow-suc 2 k)) (omega (arith, pow-suc 2 k)),
  )

pub bit_and-IsDigitwise : IsDigitwise bit_and min
bit_and-IsDigitwise = record { step = bit_and_step; digit = λ a b p q. omega arith; at_zero = refl }

pub bit_or-IsDigitwise : IsDigitwise bit_or max
bit_or-IsDigitwise = record { step = bit_or_step; digit = λ a b p q. omega arith; at_zero = refl }

differ-lt_two : (a b : ℕ) → a < 2 → b < 2 → differ a b < 2
differ-lt_two zero b p q = q
differ-lt_two (suc zero) zero p q = p
differ-lt_two (suc zero) (suc b) p q = omega arith
differ-lt_two (suc (suc a)) b p q = absurd (omega arith)

bit_xor_step : (a b : ℕ) → bit_xor a b ≡ bit_xor (a / 2) (b / 2) * 2 + differ (a % 2) (b % 2)
bit_xor_step = lowest_digit (λ y. y) differ bit_xor-bitwise (λ b. ground arith)

pub bit_xor-IsDigitwise : IsDigitwise bit_xor differ
bit_xor-IsDigitwise = record { step = bit_xor_step; digit = differ-lt_two; at_zero = refl }

-- `a | 0`, `a & 0`, `a & a` and the mask of low bits, from the lowest digit up.
bit_or-zero_below : (k a : ℕ) → a < 2 ^ k → bit_or a 0 ≡ a
bit_or-zero_below zero zero h = refl
bit_or-zero_below zero (suc a) h = absurd (omega arith)
bit_or-zero_below (suc k) a h =
    omega (
      arith,
      bit_or_step a 0,
      pow-suc 2 k,
      bit_or-zero_below k (a / 2) (omega (arith, pow-suc 2 k)),
    )

lt-two_pow : (a : ℕ) → a < 2 ^ a
lt-two_pow zero = omega arith
lt-two_pow (suc a) = omega (arith, lt-two_pow a, pow-suc 2 a)

pub bit_or-zero : (a : ℕ) → bit_or a 0 ≡ a
bit_or-zero a = bit_or-zero_below a a (lt-two_pow a)

bit_and-zero_below : (k a : ℕ) → a < 2 ^ k → bit_and a 0 ≡ 0
bit_and-zero_below zero zero h = refl
bit_and-zero_below zero (suc a) h = absurd (omega arith)
bit_and-zero_below (suc k) a h = omega (
  arith,
  bit_and_step a 0,
  pow-suc 2 k,
  bit_and-zero_below k (a / 2) (omega (arith, pow-suc 2 k)),
)

pub bit_and-zero : (a : ℕ) → bit_and a 0 ≡ 0
bit_and-zero a = bit_and-zero_below a a (lt-two_pow a)

-- A mask of k ones keeps a number of k bits.
pub bit_and-ones : (k a : ℕ) → a < 2 ^ k → bit_and a (2 ^ k - 1) ≡ a
bit_and-ones zero zero h = refl
bit_and-ones zero (suc a) h = absurd (omega arith)
bit_and-ones (suc k) a h =
    ground
      (arith, bit_and_step a (2 ^ suc k - 1), pow-suc 2 k, one-le-pow k 2, bit_and-ones k (a / 2))

bit_and_self_below : (k a : ℕ) → a < 2 ^ k → bit_and a a ≡ a
bit_and_self_below zero zero h = refl
bit_and_self_below zero (suc a) h = absurd (omega arith)
bit_and_self_below (suc k) a h =
    omega (arith, bit_and_step a a, bit_and_self_below k (a / 2) (omega (arith, pow-suc 2 k)))

pub bit_and_self : (a : ℕ) → bit_and a a ≡ a
bit_and_self a = bit_and_self_below a a (lt-two_pow a)

pub two_pow_pos : (k : ℕ) → 0 < 2 ^ k
two_pow_pos k = one-le-pow k 2 (omega arith)

pub mod-lt_pow : (a k : ℕ) → a % 2 ^ k < 2 ^ k
mod-lt_pow a k = mod-lt a (two_pow_pos k)

-- `a & (2^k - 1)` is the remainder, at every k.
pub bit_and_mask : (k a : ℕ) → bit_and a (2 ^ k - 1) ≡ a % 2 ^ k
bit_and_mask k a = ground (
  arith,
  digitwise_split bit_and-IsDigitwise k (a / 2 ^ k) 0 (a % 2 ^ k) (2 ^ k - 1),
  two_pow_pos k,
  mod-lt_pow a k,
  div-add-mod' a (2 ^ k),
  bit_and-zero (a / 2 ^ k),
  bit_and-ones k (a % 2 ^ k),
)

-- `(q << k) | r` is a sum when r has k bits.
pub bit_or_fields : (k q r : ℕ) → r < 2 ^ k → bit_or (q * 2 ^ k) r ≡ q * 2 ^ k + r
bit_or_fields k q r h = ground (
  arith,
  digitwise_split bit_or-IsDigitwise k q 0 0 r,
  two_pow_pos k,
  bit_or-zero q,
  bit_or_zero_left,
)
  where
    bit_or_zero_left : bit_or 0 r ≡ r
    bit_or_zero_left = bit_or-bitwise 0 r
