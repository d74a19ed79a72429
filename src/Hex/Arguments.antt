-- ===== src/Hex/Arguments.antt =====
-- The numbers on the command line of examples/rv/tests/elf2hex/elf2hex.cpp, which `strtoull` reads with
-- the base 0: decimal, octal after 0, and hexadecimal after 0x.
pub mod Roundtrip
use koika.Prelude.{
  ℕ, ◌+◌, ◌-◌, ◌*◌, ◌%◌, ◌^◌, Bool, true, false, ◌&&◌, ◌||◌, Option, none, some, List, [], ◌∷◌, ltb,
  ◌==◌, if◌then◌else◌, ◌>>=◌,
}
use koika.Text.{valid_digit}
use koika.Text.Literals.{digit_value}
use koika.Text.Number.{skip_spaces}
use koika.Hex.{Suffix, Config, scale, is_width}

abbrev pub is_digit : ℕ → ℕ → Bool
is_digit base c = valid_digit 16 c && ltb (digit_value c) base

-- The value of the digits up to the first other character, and the text from there.
unfoldable pub digits : ℕ → ℕ → List ℕ → ℕ × List ℕ
digits base acc [] = (acc, [])
digits base acc (c ∷ cs) =
    let more = digits base (base * acc + digit_value c) cs in
    if is_digit base c then more else (acc, c ∷ cs)

-- The largest number for one that does not fit 64 bits.
abbrev pub fit : Bool → ℕ → ℕ
fit negative n =
    if ltb n (2 ^ 64) then (if negative then (2 ^ 64 - n) % 2 ^ 64 else n) else 2 ^ 64 - 1

-- The number, and the text that `endptr` points to: `text` if there are no digits.
abbrev pub converted : List ℕ → Bool → ℕ → List ℕ → ℕ × List ℕ
converted text negative base [] = (0, text)
converted text negative base (c ∷ cs) =
    if is_digit base c
    then (fit negative (digits base 0 (c ∷ cs)).0, (digits base 0 (c ∷ cs)).1)
    else (0, text)

abbrev is_x : ℕ → Bool
is_x c = c == 0x78 || c == 0x58

-- The base, from what follows the sign; 0x counts only before a digit.
abbrev pub by_base : List ℕ → Bool → List ℕ → ℕ × List ℕ
by_base text negative (c ∷ x ∷ d ∷ cs) =
    if c == 0x30 && is_x x && is_digit 16 d
    then converted text negative 16 (d ∷ cs)
    else converted text negative (if c == 0x30 then 8 else 10) (c ∷ x ∷ d ∷ cs)
by_base text negative (c ∷ cs) = converted text negative (if c == 0x30 then 8 else 10) (c ∷ cs)
by_base text negative [] = (0, text)

unfoldable pub by_sign : List ℕ → List ℕ → ℕ × List ℕ
by_sign text [] = (0, text)
by_sign text (c ∷ cs) =
    if c == 0x2d
    then by_base text true cs
    else if c == 0x2b
    then by_base text false cs
    else by_base text false (c ∷ cs)

unfoldable pub strtoull : List ℕ → ℕ × List ℕ
strtoull text = by_sign text (skip_spaces text)

-- `strcmp(endptr, …)`
abbrev pub suffix_of : List ℕ → Suffix
suffix_of [] = Suffix.empty
suffix_of (c ∷ []) =
    if c == 0x4b
    then Suffix.kilo
    else if c == 0x4d
    then Suffix.mega
    else if c == 0x47
    then Suffix.giga
    else Suffix.other
suffix_of (c ∷ d ∷ cs) = Suffix.other

abbrev pub whole : ℕ × List ℕ → Option ℕ
whole (n, []) = some n
whole (n, c ∷ cs) = none

-- The arguments `base-address`, `size` and `width`; `none` is one of the errors.
unfoldable pub config_of : List ℕ → List ℕ → List ℕ → Option Config
unfolding strtoull
config_of base_address size width = do
  b ← whole (strtoull base_address)
  s ← scale (strtoull size).0 (suffix_of (strtoull size).1)
  w ← whole (strtoull width)
  if is_width w then some (record { base_address = b; size = s; width = w }) else none
