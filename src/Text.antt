-- ===== src/Text.antt =====
-- Bit vectors as text: `bits<sz>::of_str`, the digits that `bits_fmt` prints, and the literals of
-- ocaml/backends/resources/cuttlesim.hpp. A character is its code.
pub mod Binary
pub mod Literals
pub mod Format
pub mod Number
mod Examples
use koika.Prelude.{
  ℕ, zero, suc, ◌+◌, ◌-◌, ◌*◌, ◌/◌, ◌%◌, ◌^◌, Bool, true, false, ◌&&◌, ◌||◌, Option, none, some,
  List, [], ◌∷◌, ◌++◌, length, drop, ltb, leb, ◌==◌, if◌then◌else◌, ◌>>=◌,
}
use koika.Bits.{bitmask, op_or, op_shl, op_shr, truncate}
use koika.Bits.Slice.{max_size}

-- The loop of `of_str`, over the characters from `pos` on.
unfoldable pub of_str_loop : ℕ → List ℕ → ℕ → Option ℕ
of_str_loop sz [] out = some out
of_str_loop sz (c ∷ cs) out =
    if c == 0x31
    then (op_shl sz 1 (length cs) >>= λ bit. of_str_loop sz cs (op_or sz out bit))
    else of_str_loop sz cs out

unfoldable pub of_str : ℕ → List ℕ → Option ℕ
of_str sz str = of_str_loop sz (drop (max_size (length str) sz - sz) str) 0

-- The loop of `bits_fmt` in the style `bin`, from `pos` down.
unfoldable pub bin_loop : ℕ → ℕ → ℕ → Option (List ℕ)
bin_loop sz val zero = some []
bin_loop sz val (suc pos) = do
  moved ← op_shr sz val pos
  rest ← bin_loop sz val pos
  some ((0x30 + truncate 1 sz moved) ∷ rest)

unfoldable pub bin_digits : ℕ → ℕ → Option (List ℕ)
bin_digits sz val = if val == 0 then some (0x30 ∷ []) else bin_loop sz val sz

-- A digit as a stream prints it, with `std::hex` set for base 16.
unfoldable pub digit_char : ℕ → ℕ
digit_char d = if ltb d 10 then 0x30 + d else 0x61 + (d - 10)

-- The digits of an unsigned number in a base, as a stream prints them; `fuel` bounds their number.
unfoldable pub print_digits : ℕ → ℕ → ℕ → List ℕ
print_digits base zero v = []
print_digits base (suc fuel) v =
    if ltb v base
    then digit_char v ∷ []
    else print_digits base fuel (v / base) ++ (digit_char (v % base) ∷ [])

-- `'0' <= c && c <= '9'` and its two kin.
abbrev pub is_decimal : ℕ → Bool
is_decimal c = leb 0x30 c && leb c 0x39

abbrev pub is_lower : ℕ → Bool
is_lower c = leb 0x61 c && leb c 0x66

abbrev is_upper : ℕ → Bool
is_upper c = leb 0x41 c && leb c 0x46

unfoldable pub valid_digit : ℕ → ℕ → Bool
valid_digit base c =
    if base == 2
    then c == 0x30 || c == 0x31
    else if base == 10
    then is_decimal c
    else if base == 16
    then is_decimal c || is_lower c || is_upper c
    else false

-- A failed `static_assert` is `none`.
unfoldable pub parse_digit : ℕ → ℕ → Option ℕ
parse_digit base c =
    if valid_digit base c
    then some
        (if is_decimal c then c - 0x30 else if is_lower c then c - 0x61 + 10 else c - 0x41 + 10)
    else none

-- `max - digit` is computed in 64 bits.
unfoldable pub parse_u64 : ℕ → ℕ → ℕ → List ℕ → Option ℕ
parse_u64 base max num [] = if leb num max then some num else none
parse_u64 base max num (c ∷ cs) = do
  digit ← parse_digit base c
  if leb num ((max + 2 ^ 64 - digit) % 2 ^ 64 / base)
      then parse_u64 base max (base * num + digit) cs
      else none

-- `parse_number<parser::u64, base, sz, cs...>::v`
unfoldable pub parse_number : ℕ → ℕ → List ℕ → Option ℕ
parse_number base sz cs = parse_u64 base (bitmask sz) 0 cs

-- What parses a number of a width; those of more than 64 bits are parsed by Boost.
pub data Parser : Type 0 where
  u64 : Parser
  u128 : Parser
  u256 : Parser
  u512 : Parser
  u1024 : Parser
  unsupported : Parser

unfoldable pub get_parser : ℕ → Parser
get_parser sz =
    if leb sz 64
    then Parser.u64
    else if leb sz 128
    then Parser.u128
    else if leb sz 256
    then Parser.u256
    else if leb sz 512
    then Parser.u512
    else if leb sz 1024
    then Parser.u1024
    else Parser.unsupported

abbrev pub parse_by : Parser → ℕ → ℕ → List ℕ → Option ℕ
parse_by Parser.u64 base sz cs = parse_number base sz cs
parse_by p base sz cs = none

-- `parse_literal<imm, base, sz, cs...>::v` with its width: decimal digits of the width, a quote, and
-- the digits of the number.
unfoldable pub parse_literal : ℕ → ℕ → List ℕ → Option (ℕ × ℕ)
unfolding get_parser
parse_literal base sz [] = none
parse_literal base sz (c ∷ cs) =
    if c == 0x27
    then (parse_by (get_parser sz) base sz cs >>= λ v. some (sz, v))
    else (parse_digit 10 c >>= λ digit. parse_literal base (10 * sz + digit) cs)

unfoldable pub parse_hex : List ℕ → Option (ℕ × ℕ)
parse_hex (c0 ∷ c1 ∷ cs) = if c0 == 0x30 && c1 == 0x78 then parse_literal 16 0 cs else none
parse_hex cs = none

-- `operator "" _b`, `_d` and `_x`.
abbrev pub literal_b : List ℕ → Option (ℕ × ℕ)
literal_b cs = parse_literal 2 0 cs

abbrev pub literal_d : List ℕ → Option (ℕ × ℕ)
literal_d cs = parse_literal 10 0 cs

abbrev pub literal_x : List ℕ → Option (ℕ × ℕ)
literal_x cs = parse_hex cs

-- With `imm`, the number without its width, which has to be at most 64.
abbrev immediate : ℕ × ℕ → Option ℕ
immediate (sz, v) = if leb sz 64 then some v else none

-- `operator "" _bv`, `_dv` and `_xv`.
abbrev literal_bv : List ℕ → Option ℕ
literal_bv cs = parse_literal 2 0 cs >>= immediate

abbrev literal_dv : List ℕ → Option ℕ
literal_dv cs = parse_literal 10 0 cs >>= immediate

abbrev literal_xv : List ℕ → Option ℕ
literal_xv cs = parse_hex cs >>= immediate
