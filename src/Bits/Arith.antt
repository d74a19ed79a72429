-- ===== src/Bits/Arith.antt =====
-- The arithmetic, logical and comparison operators of `bits<sz>`, as functions on numbers.
use native.Mathlib.Nat.{mul-add-mod_self_right, mod-eq_of_lt, le_trans}
use koika.Prelude.{ℕ, ◌+◌, ◌-◌, ◌*◌, ◌%◌, ◌^◌, ◌<◌, ◌≡◌, arith, ◌∙◌, ap, bit_and, bit_or, bit_xor}
use koika.Prelude.Digits.{
  two_pow_pos, digitwise-lt, bit_and-IsDigitwise, bit_or-IsDigitwise, bit_xor-IsDigitwise,
}
use koika.Prelude.Power.{pow_split, pow-add, pow-le, fields-mod, ones_split}
use koika.Bits.{promoted, widen, complement, op_and, op_or, op_xor, op_not, op_add, op_sub, op_mul}
use koika.Bits.Width.{IsNative, mask-mk, mk_small, le-storage, storage-le-promoted}

module _ (sz : ℕ) (h : IsNative sz) where
  promoted_split : 2 ^ promoted sz ≡ 2 ^ sz * 2 ^ (promoted sz - sz)
  promoted_split = pow_split (omega (arith, le-storage sz h, storage-le-promoted sz))

  -- The complement in the promoted width ends in the complement of the sz low bits.
  complement_fields :
      (y : ℕ)
      → y < 2 ^ sz
      → complement sz y ≡ (2 ^ (promoted sz - sz) - 1) * 2 ^ sz + (2 ^ sz - 1 - y)
  unfolding complement
  complement_fields y p = ground (
    arith,
    promoted_split,
    ones_split (2 ^ (promoted sz - sz)) (2 ^ sz),
    two_pow_pos sz,
    two_pow_pos (promoted sz - sz),
  )

  op_add_lem : (x y : ℕ) → op_add sz x y ≡ (x + y) % 2 ^ sz
  unfolding op_add
  op_add_lem x y = mask-mk sz h (x + y)

  -- At a width of at most 64 with a subtrahend that fits, `-` subtracts modulo `2 ^ sz`.
  op_sub_lem : (x y : ℕ) → y < 2 ^ sz → op_sub sz x y ≡ (x + 2 ^ sz - y) % 2 ^ sz
  unfolding op_sub
  op_sub_lem x y p =
      mask-mk sz h _ ∙ ap (λ (t : ℕ). t % 2 ^ sz) regroup ∙ mul-add-mod_self_right high (2 ^ sz) _
    where
      high : ℕ
      high = 2 ^ (promoted sz - sz) - 1

      regroup : x + complement sz y + 1 ≡ high * 2 ^ sz + (x + 2 ^ sz - y)
      regroup = omega (arith, complement_fields y p)

  -- At a width of at most 64 with an operand that fits, `~` subtracts from `2 ^ sz - 1`.
  pub op_not_lem : (x : ℕ) → x < 2 ^ sz → op_not sz x ≡ 2 ^ sz - 1 - x
  unfolding op_not
  op_not_lem x p =
      mask-mk sz h _
      ∙ ap (λ (t : ℕ). t % 2 ^ sz) (complement_fields x p)
      ∙ fields-mod sz _ (2 ^ sz - 1 - x) (omega (arith, two_pow_pos sz))

  pub op_and_lem : (x y : ℕ) → x < 2 ^ sz → y < 2 ^ sz → op_and sz x y ≡ bit_and x y
  unfolding op_and
  op_and_lem x y p q = mk_small sz _ h (digitwise-lt bit_and-IsDigitwise sz x y p q)

  pub op_or_lem : (x y : ℕ) → x < 2 ^ sz → y < 2 ^ sz → op_or sz x y ≡ bit_or x y
  unfolding op_or
  op_or_lem x y p q = mk_small sz _ h (digitwise-lt bit_or-IsDigitwise sz x y p q)

  op_xor_lem : (x y : ℕ) → x < 2 ^ sz → y < 2 ^ sz → op_xor sz x y ≡ bit_xor x y
  unfolding op_xor
  op_xor_lem x y p q = mk_small sz _ h (digitwise-lt bit_xor-IsDigitwise sz x y p q)

-- For operands that fit their widths, at a total width of at most 64, `*` gives the exact product.
op_mul_lem :
    (sz_x sz_y x y : ℕ)
    → IsNative (sz_x + sz_y)
    → x < 2 ^ sz_x
    → y < 2 ^ sz_y
    → op_mul sz_x sz_y x y ≡ x * y
unfolding op_mul widen
op_mul_lem sz_x sz_y x y h p q =
    rw (mk_small _ x h fits_x, mk_small _ y h fits_y) (mask-mk _ h (x * y) ∙ mod-eq_of_lt product)
  where
    fits_x : x < 2 ^ (sz_x + sz_y)
    fits_x = le_trans p (pow-le (omega arith))

    fits_y : y < 2 ^ (sz_x + sz_y)
    fits_y = le_trans q (pow-le (omega arith))

    product : x * y < 2 ^ (sz_x + sz_y)
    product = grind (arith, pow-add sz_x sz_y)
