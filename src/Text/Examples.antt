-- ===== src/Text/Examples.antt =====
-- Printing and parsing concrete numbers.
use koika.Prelude.{ℕ, ◌^◌, ◌<◌, ◌≡◌, ◌↔◌, arith, some, List, [], ◌∷◌}
use koika.Text.{parse_number}
use koika.Text.Literals.{IsBase, AreDigits, number_value, parse_number-accepts}

-- The characters of `2f`.
abbrev chars : List ℕ
chars = 0x32 ∷ 0x66 ∷ []

parse_number-accepts_example :
    (parse_number 16 6 chars ≡ some 47)
    ↔ (AreDigits 16 chars × (number_value 16 0 chars ≡ 47) × (47 < 2 ^ 6))
parse_number-accepts_example = parse_number-accepts 16 6 chars 47 IsBase.sixteen (omega arith)
