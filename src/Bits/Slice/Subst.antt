-- ===== src/Bits/Slice/Subst.antt =====
-- `slice_subst` replaces one field and keeps the bits above and below it.
use native.Mathlib.Nat.{le_trans, mul_comm}
use koika.Prelude.{
  ℕ, ◌+◌, ◌-◌, ◌*◌, ◌/◌, ◌%◌, ◌^◌, ◌≤◌, ◌<◌, ◌≡◌, arith, ◌∙◌, ap, sym, some, bit_and, bit_or,
}
use Prim.Native.Nat.{bit_or-bitwise}
use mathlib.Core.Path.{ap₂}
use koika.Prelude.Digits.{
  two_pow_pos, mod-lt_pow, digitwise_split, bit_and-IsDigitwise, bit_or-IsDigitwise, bit_and-ones,
  bit_and-zero, bit_or-zero,
}
use koika.Prelude.Power.{
  pow-add, pow-le, fields_of, fields-lt, div-lt_pow, ones_split, pow_split, mod-mod_pow,
}
use koika.Bits.{promoted, op_and, op_not}
use koika.Bits.Width.{IsNative, ones_lem}
use koika.Bits.Arith.{op_not_lem, op_and_lem, op_or_lem}
use koika.Bits.Slice.{slice_subst}
use koika.Bits.Slice.Laws.{placed}

-- The mask that clears `width` bits at `idx` keeps the bits above and below.
cleared :
    (idx width a h m l : ℕ)
    → h < 2 ^ a
    → m < 2 ^ width
    → l < 2 ^ idx
    → bit_and
        (h * 2 ^ (idx + width) + (m * 2 ^ idx + l))
        ((2 ^ a - 1) * 2 ^ (idx + width) + (0 * 2 ^ idx + (2 ^ idx - 1)))
      ≡ h * 2 ^ (idx + width) + l
cleared idx width a h m l p q r =
    digitwise_split bit_and-IsDigitwise (idx + width) h (2 ^ a - 1) _ _
      (fields-lt idx width m l q r)
      (fields-lt idx width 0 (2 ^ idx - 1) (two_pow_pos width) (omega (arith, two_pow_pos idx)))
    ∙ ap₂ (λ (s t : ℕ). s * 2 ^ (idx + width) + t) (bit_and-ones a h p)
        (digitwise_split bit_and-IsDigitwise idx m 0 l (2 ^ idx - 1) r
            (omega (arith, two_pow_pos idx))
          ∙ ap₂ (λ (s t : ℕ). s * 2 ^ idx + t) (bit_and-zero m) (bit_and-ones idx l r)
          ∙ omega arith)

zero-bit_or : (r : ℕ) → bit_or 0 r ≡ r
zero-bit_or r = bit_or-bitwise 0 r

-- Two fields at different places are joined by `|`.
joined :
    (idx width h r l : ℕ)
    → r < 2 ^ width
    → l < 2 ^ idx
    → bit_or (h * 2 ^ (idx + width) + l) (r * 2 ^ idx) ≡ h * 2 ^ (idx + width) + (r * 2 ^ idx + l)
joined idx width h r l q p = ground (
  arith,
  digitwise_split bit_or-IsDigitwise (idx + width) h 0 l (r * 2 ^ idx),
  pow-add idx width,
  low_fits,
  field_fits,
  bit_or-zero h,
  low,
)
  where
    low_fits : l < 2 ^ (idx + width)
    low_fits = le_trans p (pow-le (omega arith))

    field_fits : r * 2 ^ idx < 2 ^ (idx + width)
    field_fits = grind (arith, pow-add idx width, two_pow_pos idx)

    low : bit_or l (r * 2 ^ idx) ≡ r * 2 ^ idx + l
    low = ground (
      arith,
      digitwise_split bit_or-IsDigitwise idx 0 r l 0,
      two_pow_pos idx,
      bit_or-zero l,
      zero-bit_or r,
    )

module _ (idx sz width : ℕ) (n : IsNative sz) (fits : idx + width ≤ sz) where
  hole_lem :
      2 ^ sz - 1 - (2 ^ width - 1) * 2 ^ idx
      ≡ (2 ^ (sz - (idx + width)) - 1) * 2 ^ (idx + width) + (0 * 2 ^ idx + (2 ^ idx - 1))
  hole_lem = omega (arith, whole, inner, above, two_pow_pos width, two_pow_pos idx)
    where
      above : 2 ^ sz ≡ 2 ^ (sz - (idx + width)) * 2 ^ (idx + width)
      above = pow_split fits ∙ mul_comm _ _

      whole :
          (2 ^ (sz - (idx + width)) - 1) * 2 ^ (idx + width) + (2 ^ (idx + width) - 1)
          ≡ 2 ^ (sz - (idx + width)) * 2 ^ (idx + width) - 1
      whole = ones_split _ _ (two_pow_pos _) (two_pow_pos _)

      inner : (2 ^ width - 1) * 2 ^ idx + (2 ^ idx - 1) ≡ 2 ^ (idx + width) - 1
      inner =
          ones_split _ _ (two_pow_pos width) (two_pow_pos idx)
          ∙ ap (λ (t : ℕ). t - 1) (mul_comm _ _ ∙ sym (pow-add idx width))

  hole_of :
      op_not sz ((2 ^ width - 1) * 2 ^ idx)
      ≡ (2 ^ (sz - (idx + width)) - 1) * 2 ^ (idx + width) + (0 * 2 ^ idx + (2 ^ idx - 1))
  hole_of = op_not_lem sz n _ inside ∙ hole_lem
    where
      inside : (2 ^ width - 1) * 2 ^ idx < 2 ^ sz
      inside =
          le_trans (grind (arith, pow-add idx width, two_pow_pos idx, two_pow_pos width))
            (pow-le fits)

  -- The three fields of a vector: above, inside and below the replaced one.
  three_fields :
      (d : ℕ)
      → d
        ≡ d / 2 ^ (idx + width) * 2 ^ (idx + width)
          + (d % 2 ^ (idx + width) / 2 ^ idx * 2 ^ idx + d % 2 ^ idx)
  three_fields d = omega (
    arith,
    fields_of (idx + width) d,
    fields_of idx (d % 2 ^ (idx + width)),
    mod-mod_pow d {k = idx} {w = idx + width} (omega arith),
  )

  kept :
      (d : ℕ)
      → d < 2 ^ sz
      → op_and sz d (op_not sz ((2 ^ width - 1) * 2 ^ idx))
        ≡ d / 2 ^ (idx + width) * 2 ^ (idx + width) + d % 2 ^ idx
  kept d p =
      op_and_lem sz n d _ p (rw hole_of hole_fits)
      ∙ ap₂ bit_and (three_fields d) hole_of
      ∙ cleared idx width (sz - (idx + width)) (d / 2 ^ (idx + width)) _ (d % 2 ^ idx)
          (div-lt_pow d (idx + width) _ (rw same at p)) middle (mod-lt_pow d idx)
    where
      same : sz ≡ idx + width + (sz - (idx + width))
      same = omega arith

      middle : d % 2 ^ (idx + width) / 2 ^ idx < 2 ^ width
      middle = div-lt_pow _ idx width (mod-lt_pow d (idx + width))

      hole_fits :
          (2 ^ (sz - (idx + width)) - 1) * 2 ^ (idx + width) + (0 * 2 ^ idx + (2 ^ idx - 1))
          < 2 ^ sz
      hole_fits = rw (← hole_lem) (omega (arith, two_pow_pos sz))

  -- At a width of at most 64, for a field inside it that starts below the promoted width, and operands
  -- that fit their widths: `slice_subst` is defined, puts `repl` into the field, and keeps the bits
  -- above the field and those below it.
  pub slice_subst_lem :
      (d repl : ℕ)
      → idx < promoted sz
      → d < 2 ^ sz
      → repl < 2 ^ width
      → slice_subst idx sz width d repl
        ≡ some (d / 2 ^ (idx + width) * 2 ^ (idx + width) + (repl * 2 ^ idx + d % 2 ^ idx))
  unfolding slice_subst
  slice_subst_lem d repl q p r =
      rw
        (
          ones_lem width (omega arith),
          placed idx sz width (2 ^ width - 1) n fits (omega (arith, two_pow_pos width)) q,
          placed idx sz width repl n fits r q,
          kept d p,
        )
        (ap some (
          op_or_lem sz n _ _ kept_fits field_fits
          ∙ joined idx width (d / 2 ^ (idx + width)) repl (d % 2 ^ idx) r (mod-lt_pow d idx)))
    where
      kept_fits : d / 2 ^ (idx + width) * 2 ^ (idx + width) + d % 2 ^ idx < 2 ^ sz
      kept_fits = le_trans (grind (arith, three_fields d)) p

      field_fits : repl * 2 ^ idx < 2 ^ sz
      field_fits = le_trans (grind (arith, pow-add idx width, two_pow_pos idx)) (pow-le fits)
