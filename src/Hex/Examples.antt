-- ===== src/Hex/Examples.antt =====
-- A small file, and the lines of a range of its addresses.
use koika.Prelude.{ℕ, ◌^◌, ◌≡◌, arith, true, some, List, [], ◌∷◌, codes, refl}
use koika.Elf.SmallFile.{file, text, opened}
use koika.Text.{valid_digit}
use koika.Hex.{Config, Suffix, Line, log_width, log_loop, scale}
use koika.Hex.Arguments.Roundtrip.{hexadecimal, Follows}
use koika.Hex.Dump.{IsRoomy}
use koika.Hex.Main.{Outcome, hex_main}
use koika.Hex.Lines.{WritesAll, hex_main_lem}

abbrev range : Config
range = record { base_address = 4; size = 1024; width = 4 }

text-IsRoomy : IsRoomy range file text
text-IsRoomy = record {
  width_pos = omega arith;
  range_end = omega arith;
  section_end = omega arith;
  data_fits = omega arith;
  readable = omega arith;
}

scaled : scale 1 Suffix.kilo ≡ some 1024
unfolding scale
scaled = refl

four : 4 ≡ 2 ^ log_width 4
unfolding log_width log_loop
four = refl

suffix-Follows : Follows (codes "K")
unfolding valid_digit
suffix-Follows = refl

-- `elf2hex a 0x4 0x1K 0x4 b`
abbrev args : List (List ℕ)
args = codes "a" ∷ hexadecimal 4 [] ∷ hexadecimal 1 (codes "K") ∷ hexadecimal 4 [] ∷ codes "b" ∷ []

hex_main_lem_example :
    (lines : List Line) × (hex_main (λ f. some file) (λ f. true) args
      ≡ some (Outcome.written lines))
    × WritesAll range file (text ∷ []) lines
hex_main_lem_example =
    hex_main_lem (λ f. some file) (λ f. true) (codes "a") (codes "b") 4 1 4 1024 (codes "K") file
      (text ∷ []) (omega arith) (omega arith) (omega arith) suffix-Follows scaled four refl refl
      opened (text-IsRoomy, tt)
