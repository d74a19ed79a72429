-- ===== src/Text/Number.antt =====
-- Numbers of 64 bits in decimal, as a stream prints and reads them and `strtoull` reads them.
use koika.Prelude.{suc, Bool, leb, ◌&&◌, ◌||◌}
use koika.Prelude.{
  ℕ, ◌+◌, ◌-◌, ◌*◌, ◌%◌, ◌^◌, ◌<◌, ◌≡◌, refl, ap, ◌∙◌, arith, true, false, List, [], ◌∷◌, ◌++◌, ltb,
  lt→ltb, ◌==◌, if◌then◌else◌, Bool-cases, inl, inr,
}
use koika.Text.{is_decimal, print_digits, digit_char, valid_digit}
use koika.Text.Literals.{number_value, IsBase, AreDigits}
use koika.Text.Format.Roundtrip.{print_digits-value}

abbrev pub is_space : ℕ → Bool
is_space c = c == 0x20 || leb 0x09 c && leb c 0x0d

unfoldable pub skip_spaces : List ℕ → List ℕ
skip_spaces [] = []
skip_spaces (c ∷ cs) = if is_space c then skip_spaces cs else c ∷ cs

-- `os << n`: 64 digits are enough for a native number.
abbrev pub decimal : ℕ → List ℕ
decimal n = print_digits 10 64 n

-- The value of the decimal digits up to the first other character.
pub read_digits : ℕ → List ℕ → ℕ
read_digits acc [] = acc
read_digits acc (c ∷ cs) =
    let more = read_digits (10 * acc + (c - 0x30)) cs in if is_decimal c then more else acc

-- A number that does not fit `std::uint_fast64_t` is read as the largest that does.
abbrev clamp : ℕ → ℕ
clamp n = if ltb n (2 ^ 64) then n else 2 ^ 64 - 1

abbrev negate : ℕ → ℕ
negate n = if ltb n (2 ^ 64) then (2 ^ 64 - n) % 2 ^ 64 else 2 ^ 64 - 1

-- `ls >> n`, on what follows the spaces: nothing keeps the old value, and a sign is accepted.
pub read_signed : List ℕ → ℕ → ℕ
read_signed [] old = old
read_signed (c ∷ cs) old =
    if c == 0x2d
    then negate (read_digits 0 cs)
    else if c == 0x2b
    then clamp (read_digits 0 cs)
    else clamp (read_digits 0 (c ∷ cs))

pub read_number : List ℕ → ℕ → ℕ
read_number cs old = read_signed (skip_spaces cs) old

pub decimal_digit : (c : ℕ) → valid_digit 10 c ≡ true → is_decimal c ≡ true
unfolding valid_digit
decimal_digit c h = h

pub read_digits-number_value :
    (cs : List ℕ) (acc : ℕ) → AreDigits 10 cs → read_digits acc cs ≡ number_value 10 acc cs
unfolding read_digits
read_digits-number_value [] acc h = refl
read_digits-number_value (c ∷ cs) acc h =
    rw (decimal_digit c h.0) (read_digits-number_value cs (10 * acc + (c - 0x30)) h.1)

-- A text of digits starts neither with a space nor with a sign.
pub digit_first :
    (c : ℕ)
    → valid_digit 10 c ≡ true
    → (is_space c ≡ false) × ((c == 0x2d) ≡ false) × ((c == 0x2b) ≡ false)
digit_first c h =
    let digit : is_decimal c ≡ true = decimal_digit c h in
    (ground (arith, digit), ground (arith, digit), ground (arith, digit))

digits_read :
    (c : ℕ) (cs : List ℕ) (old v : ℕ)
    → AreDigits 10 (c ∷ cs)
    → number_value 10 0 (c ∷ cs) ≡ v
    → v < 2 ^ 64
    → read_number (c ∷ cs) old ≡ v
unfolding read_number read_signed skip_spaces
digits_read c cs old v h value fits =
    let (not_space, not_minus, not_plus) = digit_first c h.0 in
    rw (not_space, not_minus, not_plus, read_digits-number_value (c ∷ cs) 0 h, value)
      (rw (lt→ltb v (2 ^ 64) fits) refl)

snoc-cons : (xs : List ℕ) (d : ℕ) → (c : ℕ) × (cs : List ℕ) × (xs ++ (d ∷ []) ≡ c ∷ cs)
snoc-cons [] d = (d, [], refl)
snoc-cons (x ∷ xs) d = (x, xs ++ (d ∷ []), refl)

pub print_digits-cons :
    (base fuel n : ℕ) → (c : ℕ) × (cs : List ℕ) × (print_digits base (suc fuel) n ≡ c ∷ cs)
unfolding print_digits
print_digits-cons base fuel n = elim (Bool-cases (ltb n base)) [
  | inl small ↦ (digit_char n, [], rw small refl)
  | inr large ↦ rw large (snoc-cons _ (digit_char (n % base)))
]

pub decimal-cons : (n : ℕ) → (c : ℕ) × (cs : List ℕ) × (decimal n ≡ c ∷ cs)
decimal-cons n = print_digits-cons 10 63 n

-- A number of 64 bits is read back from its decimal digits.
pub read_number-decimal : (n old : ℕ) → n < 2 ^ 64 → read_number (decimal n) old ≡ n
read_number-decimal n old fits =
    let (digits, value) = print_digits-value 10 IsBase.ten 64 n fits (omega arith) in
    let (c, cs, e) = decimal-cons n in
    ap (λ t. read_number t old) e ∙ digits_read c cs old n (rw e at digits) (rw e at value) fits

signed-lt : (cs : List ℕ) (old : ℕ) → old < 2 ^ 64 → read_signed cs old < 2 ^ 64
unfolding read_signed
signed-lt [] old h = h
signed-lt (c ∷ cs) old h = elim (Bool-cases (c == 0x2d)) [
  | inl minus ↦ rw minus (ground arith)
  | inr other ↦ elim (Bool-cases (c == 0x2b)) [
    | inl plus ↦ rw (other, plus) (ground arith)
    | inr digit ↦ rw (other, digit) (ground arith)
  ]
]

-- Whatever is read fits 64 bits.
pub read_number-lt : (cs : List ℕ) (old : ℕ) → old < 2 ^ 64 → read_number cs old < 2 ^ 64
unfolding read_number
read_number-lt cs old h = signed-lt (skip_spaces cs) old h
