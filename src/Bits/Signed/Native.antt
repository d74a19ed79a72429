-- ===== src/Bits/Signed/Native.antt =====
-- At a width that fills its storage type the signed operations are those of two's complement.
use native.Mathlib.Nat.{
  le_trans, mod-eq_of_lt, div-le_self, mul-one, mul_comm, pow-suc, mul-div_cancel,
}
use koika.Prelude.{
  ℕ, zero, suc, ◌+◌, ◌-◌, ◌*◌, ◌/◌, ◌^◌, ◌≤◌, ◌<◌, ◌≡◌, refl, arith, ◌∙◌, ap, sym, some, ltb,
  of_bool, Bool, lt→ltb, ge→ltb, ltb→lt, ltb→ge, Bool-cases, inl, inr,
}
use koika.Prelude.Digits.{two_pow_pos}
use koika.Prelude.Power.{pow-le, pow-add, pow_split, fields-div}
use koika.Prelude.Int.{ℤ, pos, negsuc, asr_ℤ}
use koika.Bits.{storage, promoted, padding_width, mk, op_shr, widen}
use koika.Bits.Width.{IsNative, storage-le-promoted, padding_lem, mk_small}
use koika.Bits.Slice.Laws.{op_shl_lem}
use koika.Bits.Signed.{slt, sgt, sle, sge}
use koika.Prelude.Int.{ltb_ℤ, leb_ℤ}
use koika.Bits.Signed.{
  signed, to_sbits, of_sbits, to_shifted_sbits, of_shifted_sbits, compare_signed, asr, sext,
}
use koika.Bits.Signed.Shifted.{padding-lt-promoted, mk_bool, shift_back, sext_wide, shr_signed_lem}

-- The widths 8, 16, 32 and 64.
pub record IsExact (sz : ℕ) : Type 0 where
  pub positive : 0 < sz
  pub native : IsNative sz
  pub exact : storage sz ≡ sz

abbrev pub InRange : ℕ → ℤ → Type 0
InRange sz (pos k) = k < 2 ^ (sz - 1)
InRange sz (negsuc k) = k < 2 ^ (sz - 1)

twice_half : (sz : ℕ) → 0 < sz → 2 ^ sz ≡ 2 * 2 ^ (sz - 1)
twice_half zero h = absurd (omega arith)
twice_half (suc n) h = pow-suc 2 n ∙ mul_comm _ 2 ∙ ap (λ (t : ℕ). 2 * 2 ^ t) (omega arith)

signed-InRange : (sz v : ℕ) → 0 < sz → v < 2 ^ sz → InRange sz (signed sz v)
signed-InRange sz v h p = ground (arith, twice_half sz h)

asr_ℤ-InRange : (sz k : ℕ) (sx : ℤ) → InRange sz sx → InRange sz (asr_ℤ sx k)
asr_ℤ-InRange sz k (pos n) h = omega (arith, div-le_self n (2 ^ k))
asr_ℤ-InRange sz k (negsuc n) h = omega (arith, div-le_self n (2 ^ k))

padding_zero : (sz : ℕ) → IsExact sz → padding_width sz ≡ 0
padding_zero sz e = omega (arith, padding_lem sz e.native, e.exact)

to_shifted_sbits-exact :
    (sz v : ℕ) → IsExact sz → v < 2 ^ sz → to_shifted_sbits sz v ≡ some (signed sz v)
unfolding to_shifted_sbits to_sbits
to_shifted_sbits-exact zero v e p = absurd (omega arith)
to_shifted_sbits-exact (suc n) v e p =
    rw
      (
        op_shl_lem (suc n) e.native v (padding_width (suc n))
            (padding-lt-promoted (suc n) e.positive e.native),
        padding_zero (suc n) e,
        e.exact,
        mul-one v,
        mod-eq_of_lt p,
      )
      refl

moved_back : (sz a : ℕ) → IsExact sz → a < 2 ^ sz → op_shr sz (mk sz a) (padding_width sz) ≡ some a
moved_back sz a e p =
    rw
      (
        mk_small sz a e.native p,
        shift_back sz a e.positive e.native (rw e.exact p),
        padding_zero sz e,
      )
      (ap some (omega arith))

-- Moving an integer in range back to its bits, and reading them again.
of_shifted_sbits-exact :
    (sz : ℕ) (sx : ℤ)
    → IsExact sz
    → InRange sz sx
    → (r : ℕ) × (of_shifted_sbits sz sx ≡ some r) × (r < 2 ^ sz) × (signed sz r ≡ sx)
unfolding of_shifted_sbits of_sbits
of_shifted_sbits-exact zero sx e h = absurd (omega arith)
of_shifted_sbits-exact (suc n) (pos k) e h =
    let fits : k < 2 ^ suc n = omega (arith, twice_half (suc n) e.positive) in
    (k, moved_back (suc n) k e fits, fits, rw (lt→ltb _ _ h))
of_shifted_sbits-exact (suc n) (negsuc k) e h =
    let half = twice_half (suc n) e.positive in
    let fits : 2 ^ suc n - 1 - k < 2 ^ suc n = omega (arith, two_pow_pos (suc n)) in
    (
      2 ^ suc n - 1 - k,
      rw e.exact (moved_back (suc n) _ e fits),
      fits,
      rw (ge→ltb (2 ^ suc n - 1 - k) (2 ^ (suc n - 1)) (omega (arith, half)))
          (ap negsuc (omega (arith, half))),
    )

compare_signed-exact :
    (test : ℤ → ℤ → Bool) (sz x y : ℕ)
    → IsExact sz
    → x < 2 ^ sz
    → y < 2 ^ sz
    → compare_signed test sz x y ≡ some (of_bool (test (signed sz x) (signed sz y)))
unfolding compare_signed
compare_signed-exact test sz x y e p q =
    rw (to_shifted_sbits-exact sz x e p, to_shifted_sbits-exact sz y e q) (ap some (mk_bool _))

-- At a width that fills its storage, for operands that fit: `slt`, `sgt`, `sle` and `sge` are defined
-- and give the bits of `<`, `>`, `<=` and `>=` on the signed values.
pub signed_comparisons :
    (sz x y : ℕ)
    → IsExact sz
    → x < 2 ^ sz
    → y < 2 ^ sz
    → (slt sz x y ≡ some (of_bool (ltb_ℤ (signed sz x) (signed sz y))))
      × (sgt sz x y ≡ some (of_bool (ltb_ℤ (signed sz y) (signed sz x))))
      × (sle sz x y ≡ some (of_bool (leb_ℤ (signed sz x) (signed sz y))))
      × (sge sz x y ≡ some (of_bool (leb_ℤ (signed sz y) (signed sz x))))
unfolding slt sgt sle sge
signed_comparisons sz x y e p q = (
  compare_signed-exact ltb_ℤ sz x y e p q,
  compare_signed-exact (λ a b. ltb_ℤ b a) sz x y e p q,
  compare_signed-exact leb_ℤ sz x y e p q,
  compare_signed-exact (λ a b. leb_ℤ b a) sz x y e p q,
)

-- At a width that fills its storage, for an operand that fits and a shift below the promoted width:
-- `asr` is defined, its result fits, and its signed value is the operand's, shifted to the right with
-- rounding down.
pub asr_lem :
    (sz x shift : ℕ)
    → IsExact sz
    → x < 2 ^ sz
    → shift < promoted sz
    → (r : ℕ) × (asr sz x shift ≡ some r) × (r < 2 ^ sz) × (signed sz r ≡ asr_ℤ (signed sz x) shift)
unfolding asr
asr_lem sz x shift e p q =
    let (r, returns, fits, value) =
      of_shifted_sbits-exact sz (asr_ℤ (signed sz x) shift) e
        (asr_ℤ-InRange sz shift _ (signed-InRange sz x e.positive p)) in
    (
      r,
      rw (to_shifted_sbits-exact sz x e p, shr_signed_lem sz shift (signed sz x) q) returns,
      fits,
      value,
    )

-- Shifting up and arithmetically down again by the same number of bits.
module _ (sz nbits x : ℕ) (h : 0 < sz) (p : x < 2 ^ sz) where
  top_bit : 2 ^ (nbits + sz - 1) ≡ 2 ^ nbits * 2 ^ (sz - 1)
  top_bit = ap (λ (t : ℕ). 2 ^ t) (omega arith) ∙ pow-add nbits (sz - 1)

  negated : (2 ^ (nbits + sz) - 1 - x * 2 ^ nbits) / 2 ^ nbits ≡ 2 ^ sz - 1 - x
  negated =
      ap (λ (t : ℕ). t / 2 ^ nbits) regroup
      ∙ fields-div nbits (2 ^ sz - 1 - x) (2 ^ nbits - 1) (omega (arith, two_pow_pos nbits))
    where
      split : 2 ^ (nbits + sz) ≡ 2 ^ sz * 2 ^ nbits
      split = pow-add nbits sz ∙ mul_comm _ _

      digits_of : 2 ^ sz ≡ (2 ^ sz - 1 - x) + x + 1
      digits_of = omega arith

      regroup :
          2 ^ (nbits + sz) - 1 - x * 2 ^ nbits ≡ (2 ^ sz - 1 - x) * 2 ^ nbits + (2 ^ nbits - 1)
      regroup = omega (arith, split, two_pow_pos nbits, ap (λ (t : ℕ). t * 2 ^ nbits) digits_of)

  up_down : asr_ℤ (signed (nbits + sz) (x * 2 ^ nbits)) nbits ≡ signed sz x
  up_down = elim (Bool-cases (ltb x (2 ^ (sz - 1)))) [
    | inl low ↦
        rw
          (
            low,
            lt→ltb (x * 2 ^ nbits) (2 ^ (nbits + sz - 1))
                (grind (arith, top_bit, ltb→lt x _ low, two_pow_pos nbits)),
          )
          (ap pos (mul-div_cancel x (two_pow_pos nbits)))
    | inr high ↦
        rw
          (
            high,
            ge→ltb (x * 2 ^ nbits) (2 ^ (nbits + sz - 1))
                (grind (arith, top_bit, ltb→ge x _ high, two_pow_pos nbits)),
          )
          (ap negsuc negated)
  ]

-- From a nonempty vector that fits its width to a width at least as large that fills its storage:
-- `sext` is defined, its result fits, and it has the operand's signed value.
pub sext_lem :
    (sz width x : ℕ)
    → IsExact width
    → 0 < sz
    → sz ≤ width
    → x < 2 ^ sz
    → (r : ℕ) × (sext width sz x ≡ some r) × (r < 2 ^ width) × (signed width r ≡ signed sz x)
sext_lem sz width x e h le p = (back.0, returns, back.2, back.3 ∙ value)
  where
    nbits : ℕ
    nbits = width - sz

    sum : nbits + sz ≡ width
    sum = omega arith

    widened : widen width x ≡ x
    widened = unfold widen in mk_small width x e.native (le_trans p (pow-le le))

    moved : x * 2 ^ nbits < 2 ^ width
    moved = grind (arith, pow_split le, two_pow_pos nbits)

    back :
        (r : ℕ) × (of_shifted_sbits width (asr_ℤ (signed width (x * 2 ^ nbits)) nbits) ≡ some r)
        × (r < 2 ^ width)
        × (signed width r ≡ asr_ℤ (signed width (x * 2 ^ nbits)) nbits)
    back =
        of_shifted_sbits-exact width _ e
          (asr_ℤ-InRange width nbits _ (signed-InRange width _ e.positive moved))

    below : nbits < promoted width
    below = omega (arith, storage-le-promoted width, e.exact)

    returns : sext width sz x ≡ some back.0
    returns =
        rw
          (
            sext_wide sz width x le,
            op_shl_lem width e.native (widen width x) nbits below,
            widened,
            mod-eq_of_lt moved,
            to_shifted_sbits-exact width (x * 2 ^ nbits) e moved,
            shr_signed_lem width nbits (signed width (x * 2 ^ nbits)) below,
          )
          back.1

    value : asr_ℤ (signed width (x * 2 ^ nbits)) nbits ≡ signed sz x
    value =
        ap (λ (t : ℕ). asr_ℤ (signed t (x * 2 ^ nbits)) nbits) (sym sum) ∙ up_down sz nbits x h p
