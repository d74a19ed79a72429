-- ===== src/Text/Format/Roundtrip.antt =====
-- Numbers printed in a base are literals of that base.
use native.Mathlib.Nat.{pow-suc, le_trans, mod-lt, div-add-mod}
use mathlib.Core.Path.{ap₂}
use koika.Prelude.{
  ℕ, zero, suc, ◌+◌, ◌*◌, ◌/◌, ◌%◌, ◌^◌, ◌≤◌, ◌<◌, ◌≡◌, refl, ◌∙◌, arith, true, some, List, [], ◌∷◌,
  ◌++◌, ltb, Bool-cases, inl, inr, ltb→lt, ltb→ge,
}
use koika.Prelude.Power.{pow-le}
use koika.Bits.Width.{IsNative}
use koika.Text.{digit_char, print_digits, valid_digit, parse_number}
use koika.Text.Literals.{digit_value, number_value, IsBase, AreDigits, parse_number-accepts}

digit_value-digit_char : (d : ℕ) → d < 16 → digit_value (digit_char d) ≡ d
unfolding digit_char
digit_value-digit_char d h = ground arith

digit_char-valid : (base d : ℕ) → IsBase base → d < base → valid_digit base (digit_char d) ≡ true
unfolding digit_char valid_digit
digit_char-valid base d IsBase.two h = ground arith
digit_char-valid base d IsBase.ten h = ground arith
digit_char-valid base d IsBase.sixteen h = ground arith

base-le : (base : ℕ) → IsBase base → (2 ≤ base) × (base ≤ 16)
base-le base IsBase.two = (omega arith, omega arith)
base-le base IsBase.ten = (omega arith, omega arith)
base-le base IsBase.sixteen = (omega arith, omega arith)

number_value-snoc :
    (base num : ℕ) (cs : List ℕ) (c : ℕ)
    → number_value base num (cs ++ (c ∷ [])) ≡ base * number_value base num cs + digit_value c
number_value-snoc base num [] c = refl
number_value-snoc base num (x ∷ xs) c = number_value-snoc base (base * num + digit_value x) xs c

AreDigits-snoc :
    (base : ℕ) (cs : List ℕ) (c : ℕ)
    → AreDigits base cs
    → valid_digit base c ≡ true
    → AreDigits base (cs ++ (c ∷ []))
AreDigits-snoc base [] c h k = (k, tt)
AreDigits-snoc base (x ∷ xs) c h k = (h.0, AreDigits-snoc base xs c h.1 k)

quotient-lt : (base v fuel : ℕ) → IsBase base → v < 2 ^ suc fuel → v / base < 2 ^ fuel
quotient-lt base v fuel IsBase.two h = omega (arith, h, pow-suc 2 fuel)
quotient-lt base v fuel IsBase.ten h = omega (arith, h, pow-suc 2 fuel)
quotient-lt base v fuel IsBase.sixteen h = omega (arith, h, pow-suc 2 fuel)

fuel_pos : (fuel v : ℕ) → v < 2 ^ suc fuel → 2 ≤ v → 0 < fuel
fuel_pos zero v h k = absurd (omega arith)
fuel_pos (suc fuel) v h k = omega arith

module _ (base : ℕ) (b : IsBase base) where
  digit_back : (d : ℕ) → d < base → digit_value (digit_char d) ≡ d
  digit_back d h = digit_value-digit_char d (omega (arith, h, base-le base b))

  pub print_digits-value :
      (fuel v : ℕ)
      → v < 2 ^ fuel
      → 0 < fuel
      → AreDigits base (print_digits base fuel v)
        × (number_value base 0 (print_digits base fuel v) ≡ v)
  unfolding print_digits
  print_digits-value zero v h p = absurd (omega arith)
  print_digits-value (suc fuel) v h p = elim (Bool-cases (ltb v base)) [
    | inl small ↦
        let alone = digit_back v (ltb→lt v base small) in
        rw small ((digit_char-valid base v b (ltb→lt v base small), tt), omega (arith, alone))
    | inr large ↦
        let enough = fuel_pos fuel v h (le_trans (base-le base b).0 (ltb→ge v base large)) in
        let (digits, value) =
          print_digits-value fuel (v / base) (quotient-lt base v fuel b h) enough in
        let last = mod-lt v (omega (arith, base-le base b)) in
        rw large (
          AreDigits-snoc base _ _ digits (digit_char-valid base (v % base) b last),
          number_value-snoc base 0 (print_digits base fuel (v / base)) (digit_char (v % base))
              ∙ ap₂ (λ s t. base * s + t) value (digit_back (v % base) last)
              ∙ div-add-mod v base,
        )
  ]

  -- At a width of at most 64, a value that fits it, printed in base 2, 10 or 16, is a literal of that
  -- base and width with that value.
  pub parse_number-print_digits :
      (sz v : ℕ) → IsNative sz → v < 2 ^ sz → parse_number base sz (print_digits base 64 v) ≡ some v
  parse_number-print_digits sz v native fits =
      let (digits, value) =
        print_digits-value 64 v (le_trans fits (pow-le {a = sz} {b = 64} native)) (omega arith) in
      (parse_number-accepts base sz (print_digits base 64 v) v b native).1 (digits, value, fits)
