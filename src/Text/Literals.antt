-- ===== src/Text/Literals.antt =====
-- What the literals mean.
use native.Mathlib.Nat.{le_trans, mul_comm, le-div_iff_mul-le}
use mathlib.Core.Path.{subst}
use koika.Prelude.{
  ℕ, ◌+◌, ◌-◌, ◌*◌, ◌/◌, ◌%◌, ◌^◌, ◌≤◌, ◌<◌, ◌≡◌, refl, ap, ◌∙◌, arith, Bool, true, false, Option,
  none, some, List, [], ◌∷◌, All, ◌↔◌, leb, if◌then◌else◌, >>=-eq-some, some_inj, leb→le, le→leb,
}
use koika.Prelude.Digits.{two_pow_pos}
use koika.Prelude.Power.{pow-le}
use koika.Bits.{bitmask}
use koika.Bits.Width.{IsNative, bitmask_lem}
use koika.Text.{valid_digit, parse_digit, parse_u64, parse_number, is_decimal, is_lower}

-- The value of a character as a digit, and of digits in a base.
abbrev pub digit_value : ℕ → ℕ
digit_value c =
    if is_decimal c then c - 0x30 else if is_lower c then c - 0x61 + 10 else c - 0x41 + 10

abbrev pub number_value : ℕ → ℕ → List ℕ → ℕ
number_value base num [] = num
number_value base num (c ∷ cs) = number_value base (base * num + digit_value c) cs

-- The bases of literals.
pub data IsBase : ℕ → Type 0 where
  two : IsBase 2
  ten : IsBase 10
  sixteen : IsBase 16

if-some :
    (c : Bool) (o : Option ℕ) (r : ℕ) → (if c then o else none) ≡ some r → (c ≡ true) × (o ≡ some r)
if-some true o r e = (refl, e)
if-some false o r e = cc

digit_value-lt : (base c : ℕ) → IsBase base → valid_digit base c ≡ true → digit_value c < base
unfolding valid_digit
digit_value-lt base c IsBase.two h = ground (arith, h)
digit_value-lt base c IsBase.ten h = ground (arith, h)
digit_value-lt base c IsBase.sixteen h = ground (arith, h)

base_pos : (base : ℕ) → IsBase base → 0 < base
base_pos base IsBase.two = omega arith
base_pos base IsBase.ten = omega arith
base_pos base IsBase.sixteen = omega arith

-- Every character is a digit in the base.
abbrev pub AreDigits : ℕ → List ℕ → Type 0
AreDigits base cs = All (λ c. valid_digit base c ≡ true) cs

le-number_value : (base : ℕ) → 0 < base → (num : ℕ) (cs : List ℕ) → num ≤ number_value base num cs
le-number_value base h num [] = omega arith
le-number_value base h num (c ∷ cs) =
    le_trans (grind (arith, h)) (le-number_value base h (base * num + digit_value c) cs)

-- What is parsed is the value of the digits, and no more than the maximum.
parse_u64_sound :
    (base max num : ℕ) (cs : List ℕ) (r : ℕ)
    → parse_u64 base max num cs ≡ some r
    → AreDigits base cs × (number_value base num cs ≡ r) × (r ≤ max)
unfolding parse_u64 parse_digit
parse_u64_sound base max num [] r e =
    let (fits, same) = if-some (leb num max) (some num) r e in
    (tt, some_inj same, subst (λ t. t ≤ max) (some_inj same) (leb→le num max fits))
parse_u64_sound base max num (c ∷ cs) r e =
    let (digit, parsed, more) = >>=-eq-some (parse_digit base c) _ e in
    let (valid, value) = if-some (valid_digit base c) (some (digit_value c)) digit parsed in
    let (fits, rest) = if-some _ (parse_u64 base max (base * num + digit) cs) r more in
    let (digits, same, small) =
      parse_u64_sound base max (base * num + digit_value c) cs r (rw (some_inj value) rest) in
    ((valid, digits), same, small)

-- The check before each digit passes while the number stays within the maximum.
check_passes :
    (base max num d : ℕ)
    → 0 < base
    → max < 2 ^ 64
    → base * num + d ≤ max
    → num ≤ (max + 2 ^ 64 - d) % 2 ^ 64 / base
check_passes base max num d h small fits =
    (le-div_iff_mul-le h).1 (omega (arith, fits, small, mul_comm num base))

parse_u64_complete :
    (base max num : ℕ) (cs : List ℕ)
    → 0 < base
    → max < 2 ^ 64
    → AreDigits base cs
    → number_value base num cs ≤ max
    → parse_u64 base max num cs ≡ some (number_value base num cs)
unfolding parse_u64 parse_digit
parse_u64_complete base max num [] h small digits fits = rw (le→leb num max fits) refl
parse_u64_complete base max num (c ∷ cs) h small (valid, digits) fits =
    rw
      (
        valid,
        le→leb _ _ (
            check_passes base max num (digit_value c) h small
              (le_trans (le-number_value base h (base * num + digit_value c) cs) fits)),
      )
      (parse_u64_complete base max (base * num + digit_value c) cs h small digits fits)

-- At a width of at most 64, in base 2, 10 or 16: a literal is accepted, as the number `r`, exactly if
-- its characters are digits of the base, of value `r`, and `r` fits the width.
pub parse_number-accepts :
    (base sz : ℕ) (cs : List ℕ) (r : ℕ)
    → IsBase base
    → IsNative sz
    → (parse_number base sz cs ≡ some r)
      ↔ (AreDigits base cs × (number_value base 0 cs ≡ r) × (r < 2 ^ sz))
unfolding parse_number
parse_number-accepts base sz cs r b native = (accepted, accepts)
  where
    largest : bitmask sz ≡ 2 ^ sz - 1
    largest = bitmask_lem sz native

    accepted :
        parse_u64 base (bitmask sz) 0 cs ≡ some r
        → AreDigits base cs × (number_value base 0 cs ≡ r) × (r < 2 ^ sz)
    accepted e =
        let (digits, same, small) = parse_u64_sound base (bitmask sz) 0 cs r e in
        (digits, same, omega (arith, small, largest, two_pow_pos sz))

    accepts :
        AreDigits base cs × (number_value base 0 cs ≡ r) × (r < 2 ^ sz)
        → parse_u64 base (bitmask sz) 0 cs ≡ some r
    accepts (digits, same, small) =
        parse_u64_complete base (bitmask sz) 0 cs (base_pos base b)
          (omega (arith, largest, two_pow_pos sz, pow-le {a = sz} {b = 64} native)) digits
          (omega (arith, same, small, largest))
        ∙ ap some same
