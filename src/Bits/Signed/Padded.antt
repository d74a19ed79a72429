-- ===== src/Bits/Signed/Padded.antt =====
-- Where a width is not that of its storage type, the shift that should move the sign bit to the top
-- of the storage is masked back to the width.
use koika.Prelude.{
  ℕ, zero, suc, ◌-◌, ◌*◌, ◌/◌, ◌%◌, ◌^◌, ◌≤◌, ◌<◌, ◌≡◌, refl, arith, ◌∙◌, ap, sym, some, ltb,
  of_bool, true, lt→ltb, ge→ltb,
}
use native.Mathlib.Nat.{le_trans, div-le_self, mul-mod_right}
use koika.Prelude.Digits.{two_pow_pos, mod-lt_pow}
use koika.Prelude.Power.{pow-le, pow-add, div-lt_pow}
use koika.Prelude.Int.{pos, ltb_ℤ}
use koika.Bits.{storage, padding_width, widen}
use koika.Bits.Width.{IsNative, le-storage, storage-le-promoted, padding_lem}
use koika.Bits.Slice.Laws.{op_shl_lem}
use koika.Bits.Signed.Shifted.{
  padding-lt-promoted, mk_bool, of_shifted_pos, sext_wide, shr_signed_lem,
}
use koika.Bits.Signed.{signed, to_sbits, to_shifted_sbits, compare_signed, slt, sext}

-- The widths of 1 to 64 bits that leave padding in their storage type.
pub record IsPadded (sz : ℕ) : Type 0 where
  pub positive : 0 < sz
  pub native : IsNative sz
  pub padded : sz < storage sz

to_shifted_sbits-padded :
    (sz v : ℕ)
    → IsPadded sz
    → to_shifted_sbits sz v ≡ some (pos (v * 2 ^ padding_width sz % 2 ^ sz))
unfolding to_shifted_sbits to_sbits
to_shifted_sbits-padded zero v p = absurd (omega arith)
to_shifted_sbits-padded (suc n) v p =
    rw
      (
        op_shl_lem (suc n) p.native v (padding_width (suc n))
            (padding-lt-promoted (suc n) p.positive p.native),
        lt→ltb _ _ small,
      )
      refl
  where
    small : v * 2 ^ padding_width (suc n) % 2 ^ suc n < 2 ^ (storage (suc n) - 1)
    small = le_trans (mod-lt_pow _ (suc n)) (pow-le (omega arith))

ltb_pos : (a b : ℕ) → ltb_ℤ (pos a) (pos b) ≡ ltb a b
ltb_pos a b = ground arith

-- At a width of 1 to 64 bits that leaves padding in its storage, `slt` compares the operands moved up
-- by the padding and masked to the width, as unsigned numbers.
pub slt-padded :
    (sz x y : ℕ)
    → IsPadded sz
    → slt sz x y
      ≡ some (of_bool (ltb (x * 2 ^ padding_width sz % 2 ^ sz) (y * 2 ^ padding_width sz % 2 ^ sz)))
unfolding slt compare_signed
slt-padded sz x y p =
    rw (to_shifted_sbits-padded sz x p, to_shifted_sbits-padded sz y p)
      (ap some (mk_bool _ ∙ ap of_bool (ltb_pos _ _)))

-- So the least negative number of a padded width does not come out below 0, as the signed order has it.
slt-padded_min :
    (sz : ℕ)
    → IsPadded sz
    → (slt sz (2 ^ (sz - 1)) 0 ≡ some 0) × (ltb_ℤ (signed sz (2 ^ (sz - 1))) (signed sz 0) ≡ true)
slt-padded_min sz p =
    (slt-padded sz _ 0 p ∙ ap some (ap of_bool (ge→ltb _ _ (rw vanishes (omega arith)))), order)
  where
    vanishes : 2 ^ (sz - 1) * 2 ^ padding_width sz % 2 ^ sz ≡ 0
    vanishes =
        ap (λ (t : ℕ). t % 2 ^ sz)
          (sym (pow-add (sz - 1) (padding_width sz))
            ∙ ap (λ (t : ℕ). 2 ^ t) (omega (arith, padding_lem sz p.native))
            ∙ pow-add sz (padding_width sz - 1))
        ∙ mul-mod_right (2 ^ sz) _

    order : ltb_ℤ (signed sz (2 ^ (sz - 1))) (signed sz 0) ≡ true
    order = ground (arith, two_pow_pos (sz - 1))

-- A sign extension of a nonempty vector to a width of at most 64 that is at least its own and leaves
-- padding in its storage is defined, and below half the range of the operand, whatever its sign.
pub sext-padded :
    (sz width x : ℕ)
    → IsPadded width
    → 0 < sz
    → sz ≤ width
    → (r : ℕ) × (sext width sz x ≡ some r) × (r < 2 ^ (sz - 1))
sext-padded sz width x p pos_sz h = (r, returns, below)
  where
    nbits : ℕ
    nbits = width - sz

    moved : ℕ
    moved = widen width x * 2 ^ nbits % 2 ^ width * 2 ^ padding_width width % 2 ^ width

    r : ℕ
    r = moved / 2 ^ nbits / 2 ^ padding_width width

    small : moved / 2 ^ nbits < 2 ^ storage width
    small =
        le_trans
          (omega (
            arith,
            div-le_self moved (2 ^ nbits),
            mod-lt_pow (widen width x * 2 ^ nbits % 2 ^ width * 2 ^ padding_width width) width,
          ))
          (pow-le (le-storage width p.native))

    returns : sext width sz x ≡ some r
    returns =
        rw
          (
            sext_wide sz width x h,
            op_shl_lem width p.native (widen width x) nbits
                (omega (arith, le-storage width p.native, storage-le-promoted width)),
            to_shifted_sbits-padded width _ p,
            shr_signed_lem width nbits _
                (omega (arith, le-storage width p.native, storage-le-promoted width)),
          )
          (of_shifted_pos width _ p.positive p.native small)

    below : r < 2 ^ (sz - 1)
    below = div-lt_pow _ (padding_width width) _ (
        div-lt_pow _ nbits _
          (le_trans (mod-lt_pow _ width) (pow-le (omega (arith, padding_lem width p.native)))))
