-- ===== src/Text/Format/Literal.antt =====
-- What is printed in decimal with its width is a literal.
use koika.Prelude.{
  ℕ, ◌+◌, ◌*◌, ◌^◌, ◌<◌, ◌≡◌, refl, ap, ◌∙◌, arith, true, false, some, List, [], ◌∷◌, ◌++◌, ◌==◌,
  le→leb, ◌>>=◌,
}
use mathlib.Core.List.{append_assoc}
use koika.Bits.Width.{IsNative}
use koika.Text.{
  valid_digit, parse_digit, parse_literal, print_digits, literal_d, parse_by, get_parser, Parser,
}
use koika.Text.Literals.{digit_value, number_value, IsBase, AreDigits}
use koika.Text.Format.{Prefix, fmt_dec}
use koika.Text.Format.Roundtrip.{print_digits-value, parse_number-print_digits}

parse_digit_lem :
    (c : ℕ)
    → valid_digit 10 c ≡ true
    → (parse_digit 10 c ≡ some (digit_value c)) × ((c == 0x27) ≡ false)
unfolding parse_digit
parse_digit_lem c h = (rw h refl, unfold valid_digit in ground (arith, h))

-- The width is the value of the digits before the quote.
parse_literal-digits :
    (base : ℕ) (ds : List ℕ) (sz : ℕ) (rest : List ℕ)
    → AreDigits 10 ds
    → parse_literal base sz (ds ++ (0x27 ∷ rest)) ≡ (
        parse_by (get_parser (number_value 10 sz ds)) base (number_value 10 sz ds) rest >>= λ v.
        some (number_value 10 sz ds, v))
unfolding parse_literal
parse_literal-digits base [] sz rest h = refl
parse_literal-digits base (d ∷ ds) sz rest h =
    let (value, other) = parse_digit_lem d h.0 in
    rw (other, value) (parse_literal-digits base ds (10 * sz + digit_value d) rest h.1)

get_parser_native : (sz : ℕ) → IsNative sz → get_parser sz ≡ Parser.u64
unfolding get_parser
get_parser_native sz h = rw (le→leb sz 64 h) refl

-- At a width of at most 64, a value that fits it, printed in decimal with its width, is a literal with
-- the suffix `_d`, of that width and value.
literal_d-fmt_dec :
    (sz v : ℕ) → IsNative sz → v < 2 ^ sz → literal_d (fmt_dec sz v Prefix.sized) ≡ some (sz, v)
unfolding fmt_dec
literal_d-fmt_dec sz v native fits =
    let (digits, value) =
      print_digits-value 10 IsBase.ten 64 sz (omega (arith, native)) (omega arith) in
    let same = parse_number-print_digits 10 IsBase.ten sz v native fits in
    ap literal_d (append_assoc (print_digits 10 64 sz) (0x27 ∷ []) (print_digits 10 64 v))
    ∙ parse_literal-digits 10 (print_digits 10 64 sz) 0 (print_digits 10 64 v) digits
    ∙ ap (λ w. parse_by (get_parser w) 10 w (print_digits 10 64 v) >>= λ n. some (w, n)) value
    ∙ ap (λ p. parse_by p 10 sz (print_digits 10 64 v) >>= λ n. some (sz, n))
        (get_parser_native sz native)
    ∙ ap (λ o. o >>= λ n. some (sz, n)) same
