-- ===== src/Memory/Bytes.antt =====
-- The word that a request leaves, byte by byte.
use koika.Prelude.{
  ℕ, zero, suc, ◌+◌, ◌-◌, ◌*◌, ◌/◌, ◌%◌, ◌^◌, ◌<◌, ◌≡◌, refl, arith, ◌∙◌, ap, some, bit_and, bit_or,
  if◌then◌else◌,
}
use native.Mathlib.Nat.{le_trans}
use Prim.Native.Nat.{bit_or-bitwise}
use koika.Prelude.Digits.{
  two_pow_pos, mod-lt_pow, digitwise_split, bit_and-IsDigitwise, bit_or-IsDigitwise, bit_and-zero,
  bit_and_mask, bit_or-zero,
}
use koika.Prelude.Power.{fields_of, fields-lt, pow-le}
use koika.Bits.{op_or}
use koika.Bits.Width.{promoted-bounds}
use koika.Bits.Arith.{op_and_lem, op_or_lem}
use koika.Bits.Slice.Laws.{index_lem}
use koika.Memory.{lane, merge, to_bool}

-- `&` with a mask of `width` ones at `idx` keeps one field.
field_mask :
    (idx width x : ℕ) → bit_and x ((2 ^ width - 1) * 2 ^ idx) ≡ x / 2 ^ idx % 2 ^ width * 2 ^ idx
field_mask idx width x = ground (
  arith,
  digitwise_split bit_and-IsDigitwise idx (x / 2 ^ idx) (2 ^ width - 1) (x % 2 ^ idx) 0,
  two_pow_pos idx,
  mod-lt_pow x idx,
  fields_of idx x,
  bit_and-zero (x % 2 ^ idx),
  ones_of (x / 2 ^ idx),
)
  where
    ones_of : (y : ℕ) → bit_and y (2 ^ width - 1) ≡ y % 2 ^ width
    ones_of y = bit_and_mask width y

-- `|` puts a field above what is there.
bit_or_above : (k q r : ℕ) → r < 2 ^ k → bit_or r (q * 2 ^ k) ≡ q * 2 ^ k + r
bit_or_above k q r h =
    ground
      (arith, digitwise_split bit_or-IsDigitwise k 0 q r 0, two_pow_pos k, bit_or-zero r, zero-or q)
  where
    zero-or : (a : ℕ) → bit_or 0 a ≡ a
    zero-or a = bit_or-bitwise 0 a

-- `|` puts the next byte above the bytes that are there.
next_byte :
    (k q r : ℕ)
    → k < 4
    → q < 2 ^ 8
    → r < 2 ^ (8 * k)
    → op_or 32 r (q * 2 ^ (8 * k)) ≡ q * 2 ^ (8 * k) + r
next_byte k q r h p small =
    op_or_lem 32 (omega arith) r _ (le_trans small (pow-le {b = 32} (omega arith)))
      (le_trans field (pow-le {b = 32} (omega arith)))
    ∙ bit_or_above (8 * k) q r small
  where
    field : q * 2 ^ (8 * k) < 2 ^ (8 * k + 8)
    field = omega (arith, fields-lt (8 * k) 8 q 0 p (two_pow_pos (8 * k)))

-- The byte `k` of a word.
abbrev pub byte : ℕ → ℕ → ℕ
byte k x = x / 2 ^ (8 * k) % 2 ^ 8

-- The word that byte `k` comes from.
abbrev pub source : ℕ → ℕ → ℕ → ℕ → ℕ
source dEn «data» current k = if to_bool (dEn / 2 ^ k % 2 ^ 1) then «data» else current

source-lt :
    (dEn «data» current k : ℕ)
    → «data» < 2 ^ 32
    → current < 2 ^ 32
    → source dEn «data» current k < 2 ^ 32
source-lt dEn «data» current k p q = ground arith

module _ (dEn «data» current : ℕ) (e : dEn < 2 ^ 4) (p : «data» < 2 ^ 32)
    (q : current < 2 ^ 32) where
  lane_lem :
      (k bytes : ℕ)
      → k < 4
      → bytes < 2 ^ 32
      → bytes ≡ (2 ^ 8 - 1) * 2 ^ (8 * k)
      → lane dEn «data» current k bytes ≡ some (byte k (source dEn «data» current k) * 2 ^ (8 * k))
  unfolding lane
  lane_lem k bytes h small same =
      rw (index_lem 4 dEn k (omega arith) (omega arith) e (omega (arith, promoted-bounds 4))) (
        ap some (
          op_and_lem 32 (omega arith) _ bytes (source-lt dEn «data» current k p q) small
          ∙ ap (bit_and (source dEn «data» current k)) same
          ∙ field_mask (8 * k) 8 (source dEn «data» current k)))

  abbrev merged : ℕ
  merged =
      byte 3 (source dEn «data» current 3) * 2 ^ 24
      + (byte 2 (source dEn «data» current 2) * 2 ^ 16
          + (byte 1 (source dEn «data» current 1) * 2 ^ 8 + byte 0 (source dEn «data» current 0)))

  merge-merged : merge dEn «data» current ≡ some merged
  unfolding merge
  merge-merged =
      rw
        (
          lane_lem 0 0x000000ff (omega arith) (omega arith) refl,
          lane_lem 1 0x0000ff00 (omega arith) (omega arith) refl,
          lane_lem 2 0x00ff0000 (omega arith) (omega arith) refl,
          lane_lem 3 0xff000000 (omega arith) (omega arith) refl,
        )
        (ap some (
          ap
            (λ (t : ℕ).
              op_or 32 (op_or 32 (op_or 32 t (b 1 * 2 ^ 8)) (b 2 * 2 ^ 16)) (b 3 * 2 ^ 24))
            (omega arith)
          ∙ ap (λ (t : ℕ). op_or 32 (op_or 32 t (b 2 * 2 ^ 16)) (b 3 * 2 ^ 24))
              (next_byte 1 (b 1) (b 0) (omega arith) (omega arith) (omega arith))
          ∙ ap (λ (t : ℕ). op_or 32 t (b 3 * 2 ^ 24))
              (next_byte 2 (b 2) (b 1 * 2 ^ 8 + b 0) (omega arith) (omega arith) (omega arith))
          ∙ next_byte 3 (b 3) (b 2 * 2 ^ 16 + (b 1 * 2 ^ 8 + b 0)) (omega arith) (omega arith)
              (omega arith)))
    where
      b : ℕ → ℕ
      b k = byte k (source dEn «data» current k)

  -- For four enable bits and words of 32 bits: `merge` is defined, its result fits 32 bits, and each
  -- of its four bytes is that of `data` where its enable bit is set and that of `current` elsewhere.
  pub merge_lem :
      (w : ℕ) × (merge dEn «data» current ≡ some w)
      × (w < 2 ^ 32)
      × ((k : ℕ) → k < 4 → byte k w ≡ byte k (source dEn «data» current k))
  merge_lem = (merged, merge-merged, omega arith, bytes)
    where
      bytes : (k : ℕ) → k < 4 → byte k merged ≡ byte k (source dEn «data» current k)
      bytes zero h = omega arith
      bytes (suc zero) h = omega arith
      bytes (suc (suc zero)) h = omega arith
      bytes (suc (suc (suc zero))) h = omega arith
      bytes (suc (suc (suc (suc k)))) h = absurd (omega arith)
