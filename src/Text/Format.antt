-- ===== src/Text/Format.antt =====
-- `bits_fmt`, `array_fmt` and the printing of byte arrays
-- (ocaml/backends/resources/cuttlesim.hpp), as the characters that they send to a stream
-- in its default state. (A byte array printed before leaves it in hexadecimal.)
pub mod Roundtrip
pub mod Printable
pub mod Literal
pub mod Output
use koika.Prelude.{
  ℕ, zero, suc, ◌+◌, ◌/◌, ◌%◌, Bool, true, false, ◌&&◌, ◌||◌, Option, none, some, List, [], ◌∷◌,
  ◌++◌, ltb, leb, ◌==◌, if◌then◌else◌, ◌>>=◌,
}
use koika.Text.{bin_digits, digit_char, print_digits}

pub data Style : Type 0 where
  full : Style
  hex : Style
  dec : Style
  bin : Style

pub data Prefix : Type 0 where
  sized : Prefix
  plain : Prefix
  minimal : Prefix

abbrev is_plain : Prefix → Bool
is_plain Prefix.plain = true
is_plain p = false

-- `os << n`, and `os << std::hex << n`: 64 digits are enough for a native number.
abbrev pub decimal : ℕ → List ℕ
decimal n = print_digits 10 64 n

abbrev hexadecimal : ℕ → List ℕ
hexadecimal n = print_digits 16 64 n

-- What `os << sz << "'"` prints if the prefix asks for it.
abbrev pub size_prefix : Prefix → ℕ → List ℕ
size_prefix Prefix.sized sz = decimal sz ++ (0x27 ∷ [])
size_prefix p sz = []

unfoldable pub fmt_bin : ℕ → ℕ → Prefix → Option (List ℕ)
fmt_bin sz val p = do
  digits ← bin_digits sz val
  some (size_prefix p sz ++ ((if is_plain p then 0x30 ∷ 0x62 ∷ [] else 0x62 ∷ []) ++ digits))

unfoldable pub fmt_hex : ℕ → ℕ → Prefix → List ℕ
fmt_hex sz val p =
    size_prefix p sz ++ ((if is_plain p then 0x30 ∷ 0x78 ∷ [] else 0x78 ∷ []) ++ hexadecimal val)

unfoldable pub fmt_dec : ℕ → ℕ → Prefix → List ℕ
fmt_dec sz val p = size_prefix p sz ++ decimal val

unfoldable pub bits_fmt : ℕ → ℕ → Style → Prefix → Option (List ℕ)
bits_fmt sz val Style.bin p = fmt_bin sz val p
bits_fmt sz val Style.hex p = some (fmt_hex sz val p)
bits_fmt sz val Style.dec p = some (fmt_dec sz val p)
bits_fmt sz val Style.full p =
    if leb sz 64
    then (fmt_bin sz val Prefix.minimal >>= λ b. some (
        size_prefix p sz
        ++ (b
            ++ (0x20 ∷ 0x28 ∷ fmt_hex sz val Prefix.plain
                ++ (0x2c ∷ 0x20 ∷ fmt_dec sz val Prefix.plain ++ (0x29 ∷ []))))))
    else some (size_prefix p sz ++ fmt_hex sz val Prefix.minimal)

-- The elements after the first, each after `; `.
unfoldable pub fmt_rest {ℓ} : {A : Type ℓ} → (A → Option (List ℕ)) → List A → Option (List ℕ)
fmt_rest fmt [] = some []
fmt_rest fmt (x ∷ xs) = do text ← fmt x; rest ← fmt_rest fmt xs; some (0x3b ∷ 0x20 ∷ text ++ rest)

abbrev pub element_style : Style → Style
element_style Style.full = Style.hex
element_style s = s

-- `array_fmt`; `fmt` prints an element in a style.
unfoldable pub array_fmt {ℓ} :
    {A : Type ℓ} → (Style → A → Option (List ℕ)) → Style → List A → Option (List ℕ)
array_fmt fmt style [] = some (0x5b ∷ 0x5d ∷ [])
array_fmt fmt style (x ∷ xs) = do
  text ← fmt (element_style style) x
  rest ← fmt_rest (fmt (element_style style)) xs
  some (0x5b ∷ text ++ (rest ++ (0x5d ∷ [])))

-- `std::isgraph` in the C locale.
abbrev pub is_graph : ℕ → Bool
is_graph chr = leb 0x21 chr && leb chr 0x7e

-- `\xHH`, padded with `0` to two digits.
unfoldable pub fmt_char : ℕ → List ℕ
fmt_char chr =
    if chr == 0x5c || chr == 0x22
    then 0x5c ∷ chr ∷ []
    else if is_graph chr
    then chr ∷ []
    else 0x5c ∷ 0x78 ∷ digit_char (chr / 16) ∷ digit_char (chr % 16) ∷ []

unfoldable pub fmt_chars : List ℕ → List ℕ
fmt_chars [] = []
fmt_chars (chr ∷ chrs) = fmt_char chr ++ fmt_chars chrs

-- A byte array as a string.
unfoldable pub fmt_string : List ℕ → List ℕ
fmt_string chrs = 0x22 ∷ fmt_chars chrs ++ (0x22 ∷ [])
