-- ===== src/Driver/Extfuns.antt =====
-- The external functions of two examples: `fetch_instr` of examples/function_call.v.etc/extfuns.hpp and
-- `mod19` of examples/fir.v.etc/extfuns.hpp.
use koika.Prelude.{
  ℕ, zero, suc, ◌%◌, ◌<◌, ◌≡◌, refl, Option, some, List, [], ◌∷◌, codes, get_elem?, ◌>>=◌, arith,
}
use koika.Bits.{mk, bitmask, padding_width, storage}
use koika.Text.{
  literal_b, parse_literal, parse_number, parse_u64, parse_digit, valid_digit, get_parser,
}

abbrev instructions : List (Option (ℕ × ℕ))
instructions =
    literal_b (codes "32'11011000001011000000011111001101")
    ∷ literal_b (codes "32'01101011101010101001010001010101")
    ∷ literal_b (codes "32'10000010111000101110011001100010")
    ∷ literal_b (codes "32'01111010000000100100001000000100")
    ∷ literal_b (codes "32'11101000011110100001011000010011")
    ∷ literal_b (codes "32'10000001001100110010100001110110")
    ∷ literal_b (codes "32'01001000001001101000011001110011")
    ∷ literal_b (codes "32'11000001011111000110001001111001")
    ∷ []

-- `instructions[idx.v]`: beyond the table it is undefined.
pub fetch_instr : ℕ → Option (ℕ × ℕ)
fetch_instr idx = do literal ← get_elem? instructions idx; literal

pub mod19 : ℕ → ℕ
mod19 idx = mk 8 (idx % 19)

-- Each index of three bits gives an instruction of 32 bits.
fetch_instr-Returns : (idx : ℕ) → idx < 8 → (v : ℕ) × (fetch_instr idx ≡ some (32, v))
unfolding fetch_instr parse_literal parse_number parse_u64 parse_digit valid_digit get_parser
    bitmask padding_width storage
fetch_instr-Returns zero h = (0b11011000001011000000011111001101, refl)
fetch_instr-Returns (suc zero) h = (0b01101011101010101001010001010101, refl)
fetch_instr-Returns (suc (suc zero)) h = (0b10000010111000101110011001100010, refl)
fetch_instr-Returns (suc (suc (suc zero))) h = (0b01111010000000100100001000000100, refl)
fetch_instr-Returns (suc (suc (suc (suc zero)))) h = (0b11101000011110100001011000010011, refl)
fetch_instr-Returns (suc (suc (suc (suc (suc zero))))) h =
    (0b10000001001100110010100001110110, refl)
fetch_instr-Returns (suc (suc (suc (suc (suc (suc zero)))))) h =
    (0b01001000001001101000011001110011, refl)
fetch_instr-Returns (suc (suc (suc (suc (suc (suc (suc zero))))))) h =
    (0b11000001011111000110001001111001, refl)
fetch_instr-Returns (suc (suc (suc (suc (suc (suc (suc (suc k)))))))) h = absurd (omega arith)
