-- ===== src/Bits/Slice/Laws.antt =====
-- Slices and concatenations as quotients, remainders and sums.
use native.Mathlib.Nat.{mod-eq_of_lt, le_trans, div-le_self}
use koika.Prelude.{
  ℕ, zero, suc, ◌+◌, ◌*◌, ◌/◌, ◌%◌, ◌^◌, ◌≤◌, ◌<◌, ◌≡◌, refl, arith, ◌∙◌, ap, some, Returns, lt→ltb,
}
use koika.Prelude.Digits.{two_pow_pos, bit_or_fields}
use koika.Prelude.Power.{pow-add, pow-le}
use koika.Bits.{promoted, mk, op_shl, op_shr, widen}
use koika.Bits.Width.{IsNative, mask-mk, mk_small, le-storage, storage-le-promoted, truncate_lem}
use koika.Bits.Arith.{op_or_lem}
use koika.Bits.Slice.{index, slice, concat}

module _ (sz : ℕ) (h : IsNative sz) where
  pub op_shr_lem :
      (v shift : ℕ) → v < 2 ^ sz → shift < promoted sz → op_shr sz v shift ≡ some (v / 2 ^ shift)
  unfolding op_shr
  op_shr_lem v shift p q =
      rw (lt→ltb _ _ q, mk_small sz (v / 2 ^ shift) h (omega (arith, div-le_self v (2 ^ shift))))

  pub op_shl_lem :
      (v shift : ℕ) → shift < promoted sz → op_shl sz v shift ≡ some (v * 2 ^ shift % 2 ^ sz)
  unfolding op_shl
  op_shl_lem v shift q = rw (lt→ltb _ _ q, mask-mk sz h (v * 2 ^ shift))

  -- A shift below the width is defined.
  pub lt-promoted : (shift : ℕ) → shift < sz → shift < promoted sz
  lt-promoted shift q = omega (arith, le-storage sz h, storage-le-promoted sz)

  -- At widths of at most 64, for data that fits and an index below the promoted width: a slice is
  -- defined, and it is the data divided by `2 ^ idx`, modulo `2 ^ width`.
  pub slice_lem :
      (idx width data1 : ℕ)
      → IsNative width
      → data1 < 2 ^ sz
      → idx < promoted sz
      → slice idx width sz data1 ≡ some (data1 / 2 ^ idx % 2 ^ width)
  unfolding slice
  slice_lem idx width data1 w p q =
      rw (op_shr_lem data1 idx p q, truncate_lem width sz (data1 / 2 ^ idx) w)

-- `operator[]` gives one bit.
pub index_lem :
    (sz data1 idx : ℕ)
    → 0 < sz
    → IsNative sz
    → data1 < 2 ^ sz
    → idx < promoted sz
    → index sz data1 idx ≡ some (data1 / 2 ^ idx % 2 ^ 1)
unfolding index slice
index_lem zero data1 idx s h p q = absurd (omega arith)
index_lem (suc n) data1 idx s h p q = slice_lem (suc n) h idx 1 data1 (omega arith) p q

-- Whether an index is defined depends on the index alone.
pub index-Returns : (n v idx : ℕ) → idx < promoted (suc n) → Returns (index (suc n) v idx)
unfolding index op_shr
index-Returns n v idx h = rw (lt→ltb _ _ h) (_, refl)

-- A field written at bit `idx` of a wider vector.
pub placed :
    (idx sz width v : ℕ)
    → IsNative sz
    → idx + width ≤ sz
    → v < 2 ^ width
    → idx < promoted sz
    → op_shl sz (widen sz v) idx ≡ some (v * 2 ^ idx)
unfolding widen
placed idx sz width v h fits p q =
    rw (mk_small sz v h (le_trans p (pow-le (omega arith))), op_shl_lem sz h v idx q)
      (ap some (mod-eq_of_lt (le_trans below (pow-le fits))))
  where
    below : v * 2 ^ idx < 2 ^ (idx + width)
    below = grind (arith, pow-add idx width, two_pow_pos idx)

-- At a total width of at most 64, with operands that fit their widths, and a second operand narrower
-- than the promoted width: `concat` is defined and puts its first operand above its second.
pub concat_lem :
    (sz1 sz2 x y : ℕ)
    → IsNative (sz1 + sz2)
    → sz2 < promoted (sz1 + sz2)
    → x < 2 ^ sz1
    → y < 2 ^ sz2
    → concat sz1 sz2 x y ≡ some (x * 2 ^ sz2 + y)
unfolding concat widen
concat_lem sz1 sz2 x y h s p q =
    rw (placed sz2 (sz1 + sz2) sz1 x h (omega arith) p s, fits_y)
      (ap some (op_or_lem _ h _ y high low ∙ bit_or_fields sz2 x y q))
  where
    low : y < 2 ^ (sz1 + sz2)
    low = le_trans q (pow-le (omega arith))

    high : x * 2 ^ sz2 < 2 ^ (sz1 + sz2)
    high = grind (arith, pow-add sz1 sz2, two_pow_pos sz2)

    fits_y : mk (sz1 + sz2) y ≡ y
    fits_y = mk_small _ y h low
