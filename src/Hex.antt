-- ===== src/Hex.antt =====
-- examples/rv/tests/elf2hex/elf2hex.cpp, which writes a range of addresses of an ELF file as words in
-- hexadecimal.
pub mod Width
pub mod Dump
pub mod Arguments
pub mod Main
pub mod Lines
mod Examples
use koika.Prelude.{
  ℕ, zero, suc, ◌+◌, ◌-◌, ◌*◌, ◌/◌, ◌%◌, ◌^◌, Bool, true, false, ◌&&◌, ◌||◌, not, Option, none,
  some, List, [], ◌∷◌, ◌++◌, bit_and, ltb, leb, ◌==◌, if◌then◌else◌, ◌>>=◌,
}
use koika.Elf.{Image, Section}

-- The check of the width, which may not be 0.
unfoldable pub is_width : ℕ → Bool
is_width width = not (width == 0 || not (bit_and (width - 1) width == 0))

-- The loop that computes `logWidth` from `tmpWidth`; a number of 64 bits takes 64 turns at most.
unfoldable pub log_loop : ℕ → ℕ → ℕ
log_loop zero tmp = 0
log_loop (suc fuel) tmp = if tmp == 0 then 0 else suc (log_loop fuel (tmp / 2))

unfoldable pub log_width : ℕ → ℕ
log_width width = log_loop 64 (width / 2)

-- What follows the number of the argument `size`.
pub data Suffix : Type 0 where
  empty : Suffix
  kilo : Suffix
  mega : Suffix
  giga : Suffix
  other : Suffix

-- Unsigned arithmetic of 64 bits.
abbrev pub wrap : ℕ → ℕ
wrap n = n % 2 ^ 64

unfoldable pub scale : ℕ → Suffix → Option ℕ
scale size Suffix.empty = some size
scale size Suffix.kilo = some (wrap (size * 1024))
scale size Suffix.mega = some (wrap (size * (1024 * 1024)))
scale size Suffix.giga = some (wrap (size * (1024 * 1024 * 1024)))
scale size Suffix.other = none

pub record Config : Type 0 where
  pub base_address : ℕ
  pub size : ℕ
  pub width : ℕ

-- A line of the output: an address `@…`, or the bytes of a word, the highest first.
pub data Line : Type 0 where
  address : ℕ → Line
  word : List ℕ → Line

-- The characters of a word: `char_index` is an `int`, which is negative at once for wider words.
abbrev pub char_count : ℕ → ℕ
char_count width = if leb width (2 ^ 31) then width else 0

-- The bytes at `at + n - 1` down to `at`; a read that leaves the file is undefined.
unfoldable pub char_loop : Image → ℕ → ℕ → Option (List ℕ)
char_loop image from zero = some []
char_loop image from (suc n) = do
  rest ← char_loop image from n
  if ltb (from + n) image.elf_size then some (image.byte_at (from + n) ∷ rest) else none

unfoldable pub zeros : ℕ → List ℕ
zeros zero = []
zeros (suc n) = 0 ∷ zeros n

-- Whether `section_offset` is below the end of the range and below `bound`.
abbrev pub continues : Config → Section → ℕ → ℕ → Bool
continues c s bound offset =
    ltb (wrap (s.base + offset)) (wrap (c.base_address + c.size)) && ltb offset bound

-- The lines that are written, and the offset that is left.
unfoldable pub data_loop : Config → Image → Section → ℕ → ℕ → Option (List Line × ℕ)
data_loop c image s zero offset = none
data_loop c image s (suc fuel) offset =
    if continues c s s.data_size offset
    then (char_loop image (s.data_offset + offset) (char_count c.width) >>= λ bytes.
        data_loop c image s fuel (wrap (offset + c.width)) >>= λ x.
        some (Line.word bytes ∷ x.0, x.1))
    else some ([], offset)

unfoldable pub zero_loop : Config → Section → ℕ → ℕ → Option (List Line × ℕ)
zero_loop c s zero offset = none
zero_loop c s (suc fuel) offset =
    if continues c s s.section_size offset
    then (zero_loop c s fuel (wrap (offset + c.width)) >>= λ x.
        some (Line.word (zeros (char_count c.width)) ∷ x.0, x.1))
    else some ([], offset)

-- Where a section starts: its address in the hex file, and the offset of its first byte.
unfoldable pub start_of : Config → Section → ℕ × ℕ
start_of c s =
    if ltb s.base c.base_address then (0, c.base_address - s.base) else (s.base - c.base_address, 0)

-- Fuel: as many turns as the section has bytes, and one to stop.
unfoldable pub dump_section : Config → Image → Section → Option (List Line)
dump_section c image s =
    if ltb (wrap (c.base_address + c.size)) s.base
    then some []
    else (data_loop c image s (suc s.data_size) (start_of c s).1 >>= λ x.
        zero_loop c s (suc s.section_size) x.1 >>= λ y.
        some (Line.address ((start_of c s).0 / 2 ^ log_width c.width) ∷ x.0 ++ y.0))

unfoldable pub dump_sections : Config → Image → List Section → Option (List Line)
dump_sections c image [] = some (Line.address (c.size / 2 ^ log_width c.width) ∷ [])
dump_sections c image (s ∷ ss) = do
  lines ← dump_section c image s
  rest ← dump_sections c image ss
  some (lines ++ rest)
