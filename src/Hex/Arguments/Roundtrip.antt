-- ===== src/Hex/Arguments/Roundtrip.antt =====
-- Numbers in hexadecimal, as `strtoull` reads them.
use koika.Prelude.{
  ℕ, ◌+◌, ◌*◌, ◌^◌, ◌<◌, ◌≡◌, refl, ap, ◌∙◌, arith, true, false, List, [], ◌∷◌, ◌++◌, lt→ltb,
}
use koika.Text.{valid_digit, print_digits}
use koika.Text.Literals.{digit_value, number_value, IsBase, AreDigits}
use koika.Text.Format.Roundtrip.{print_digits-value}
use koika.Text.Number.{skip_spaces, print_digits-cons}
use koika.Hex.Arguments.{is_digit, digits, by_sign, strtoull}

digit_sixteen : (c : ℕ) → valid_digit 16 c ≡ true → is_digit 16 c ≡ true
unfolding valid_digit
digit_sixteen c h = ground (arith, h)

-- What follows a number: nothing, or a character that is no digit.
abbrev pub Follows : List ℕ → Type 0
Follows [] = Unit
Follows (c ∷ cs) = is_digit 16 c ≡ false

digits-number_value :
    (cs rest : List ℕ) (acc : ℕ)
    → AreDigits 16 cs
    → Follows rest
    → digits 16 acc (cs ++ rest) ≡ (number_value 16 acc cs, rest)
unfolding digits
digits-number_value [] [] acc h f = refl
digits-number_value [] (c ∷ rest) acc h f = rw f refl
digits-number_value (c ∷ cs) rest acc h f =
    rw (digit_sixteen c h.0) (digits-number_value cs rest (16 * acc + digit_value c) h.1 f)

-- A number in hexadecimal, before what follows it.
abbrev pub hexadecimal : ℕ → List ℕ → List ℕ
hexadecimal n rest = 0x30 ∷ 0x78 ∷ print_digits 16 64 n ++ rest

read_hexadecimal :
    (c : ℕ) (cs rest : List ℕ) (n : ℕ)
    → AreDigits 16 (c ∷ cs)
    → number_value 16 0 (c ∷ cs) ≡ n
    → n < 2 ^ 64
    → Follows rest
    → strtoull (0x30 ∷ 0x78 ∷ c ∷ cs ++ rest) ≡ (n, rest)
unfolding strtoull by_sign skip_spaces
read_hexadecimal c cs rest n h value fits f =
    let ran = digits-number_value (c ∷ cs) rest 0 h f in
    rw (digit_sixteen c h.0, ran, value) (rw (lt→ltb n (2 ^ 64) fits) refl)

pub strtoull-hexadecimal :
    (n : ℕ) (rest : List ℕ) → n < 2 ^ 64 → Follows rest → strtoull (hexadecimal n rest) ≡ (n, rest)
strtoull-hexadecimal n rest fits f =
    let (all, value) = print_digits-value 16 IsBase.sixteen 64 n fits (omega arith) in
    let (c, cs, e) = print_digits-cons 16 63 n in
    ap (λ t. strtoull (0x30 ∷ 0x78 ∷ t ++ rest)) e
    ∙ read_hexadecimal c cs rest n (rw e at all) (rw e at value) fits f
