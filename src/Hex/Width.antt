-- ===== src/Hex/Width.antt =====
-- The widths that elf2hex accepts.
use native.Mathlib.Nat.{pow-suc}
use koika.Prelude.{
  ℕ, zero, suc, ◌-◌, ◌*◌, ◌/◌, ◌%◌, ◌^◌, ◌<◌, ◌≡◌, refl, sym, ap, ◌∙◌, arith, true, ◌||◌, not,
  bit_and, ◌↔◌, ◌==◌, Bool-cases, inl, inr,
}
use mathlib.Core.Path.{ap₂, subst}
use koika.Prelude.Digits.{bit_and_step, bit_and_self, two_pow_pos}
use koika.Hex.{is_width, log_loop, log_width}

-- Such a number above 1 is even, and its half is such a number too.
halves :
    (w : ℕ)
    → 0 < w / 2
    → bit_and (w - 1) w ≡ 0
    → (w ≡ 2 * (w / 2)) × (bit_and (w / 2 - 1) (w / 2) ≡ 0)
halves w p e = elim (Bool-cases (w % 2 == 0)) [
  | inl even ↦
      let r : w % 2 ≡ 0 = ground (arith, even) in
      (omega (arith, r), ap (λ t. bit_and t (w / 2)) (omega (arith, r, p)) ∙ high)
  | inr odd ↦
      let r : w % 2 ≡ 1 = ground (arith, odd) in
      absurd
        (omega (arith, p, bit_and_self (w / 2), ap (λ t. bit_and t (w / 2)) (half_same r), high))
]
  where
    high : bit_and ((w - 1) / 2) (w / 2) ≡ 0
    high = omega (arith, bit_and_step (w - 1) w, e)

    half_same : w % 2 ≡ 1 → (w - 1) / 2 ≡ w / 2
    half_same r = omega (arith, r)

-- A number that has no bit in common with its predecessor is a power of two, and the loop finds which.
power_of_two :
    (fuel w : ℕ) → 0 < w → w < 2 ^ suc fuel → bit_and (w - 1) w ≡ 0 → w ≡ 2 ^ log_loop fuel (w / 2)
unfolding log_loop
power_of_two zero w p h e = omega arith
power_of_two (suc fuel) w p h e = elim (Bool-cases (w / 2 == 0)) [
  | inl one ↦ rw one (ground (arith, one))
  | inr more ↦
      let positive : 0 < w / 2 = ground (arith, more) in
      let (even, again) = halves w positive e in
      rw more (
        even
        ∙ ap (λ t. 2 * t)
            (power_of_two fuel (w / 2) positive (omega (arith, h, pow-suc 2 (suc fuel))) again)
        ∙ omega (arith, pow-suc 2 (log_loop fuel (w / 2 / 2))))
]

shares_no_bit : (k : ℕ) → bit_and (2 ^ k - 1) (2 ^ k) ≡ 0
shares_no_bit zero = refl
shares_no_bit (suc k) = omega (
  arith,
  bit_and_step (2 ^ suc k - 1) (2 ^ suc k),
  ap₂ bit_and (half_less k) (half k),
  shares_no_bit k,
  pow-suc 2 k,
)
  where
    half : (n : ℕ) → 2 ^ suc n / 2 ≡ 2 ^ n
    half n = omega (arith, pow-suc 2 n)

    half_less : (n : ℕ) → (2 ^ suc n - 1) / 2 ≡ 2 ^ n - 1
    half_less n = omega (arith, pow-suc 2 n, two_pow_pos n)

-- A width of 64 bits is accepted exactly if it is a power of two; `logWidth` is then its exponent.
pub is_width-accepts :
    (width : ℕ) → width < 2 ^ 64 → (is_width width ≡ true) ↔ (width ≡ 2 ^ log_width width)
unfolding is_width log_width
is_width-accepts width h = (accepted, accepts)
  where
    accepted :
        not (width == 0 || not (bit_and (width - 1) width == 0)) ≡ true
        → width ≡ 2 ^ log_loop 64 (width / 2)
    accepted e = power_of_two 64 width (ground (arith, e)) (omega (arith, h)) (ground (arith, e))

    accepts :
        width ≡ 2 ^ log_loop 64 (width / 2)
        → not (width == 0 || not (bit_and (width - 1) width == 0)) ≡ true
    accepts e = ground (arith, shared, positive)
      where
        positive : 0 < width
        positive = omega (arith, e, two_pow_pos (log_loop 64 (width / 2)))

        shared : bit_and (width - 1) width ≡ 0
        shared =
            subst (λ t. bit_and (t - 1) t ≡ 0) (sym e) (shares_no_bit (log_loop 64 (width / 2)))
