-- ===== src/Bits/Signed/Shifted.antt =====
-- The steps that the signed operations share, at every width.
use native.Mathlib.Nat.{mod-eq_of_lt}
use koika.Prelude.{
  ℕ, zero, suc, ◌+◌, ◌-◌, ◌/◌, ◌^◌, ◌≤◌, ◌<◌, ◌≡◌, refl, arith, ap, some, of_bool, Bool, true,
  false, lt→ltb, le→leb, ◌>>=◌,
}
use koika.Prelude.Power.{div-lt_pow}
use koika.Prelude.Int.{ℤ, pos, asr_ℤ}
use koika.Bits.{storage, promoted, padding_width, mk, op_shl, op_shr, widen}
use koika.Bits.Width.{IsNative, storage-le-promoted, padding_lem, mk_small}
use koika.Bits.Slice.{max_size}
use koika.Bits.Signed.{to_shifted_sbits, of_shifted_sbits, of_sbits, shr_signed, sext}

pub padding-lt-promoted : (sz : ℕ) → 0 < sz → IsNative sz → padding_width sz < promoted sz
padding-lt-promoted sz p h = omega (arith, padding_lem sz h, storage-le-promoted sz)

pub mk_bool : (b : Bool) → mk 1 (of_bool b) ≡ of_bool b
unfolding mk storage
mk_bool true = refl
mk_bool false = refl

-- Moving back down: the high `sz` bits of a storage pattern.
pub shift_back :
    (sz a : ℕ)
    → 0 < sz
    → IsNative sz
    → a < 2 ^ storage sz
    → op_shr sz a (padding_width sz) ≡ some (a / 2 ^ padding_width sz)
unfolding op_shr
shift_back sz a p h fits =
    rw (lt→ltb _ _ (padding-lt-promoted sz p h))
      (ap some (mk_small sz _ h (div-lt_pow a (padding_width sz) sz (rw exact fits))))
  where
    exact : padding_width sz + sz ≡ storage sz
    exact = omega (arith, padding_lem sz h)

pub of_shifted_pos :
    (sz k : ℕ)
    → 0 < sz
    → IsNative sz
    → k < 2 ^ storage sz
    → of_shifted_sbits sz (pos k) ≡ some (k / 2 ^ padding_width sz)
unfolding of_shifted_sbits of_sbits mk
of_shifted_pos zero k p h fits = absurd (omega arith)
of_shifted_pos (suc n) k p h fits = rw (mod-eq_of_lt fits) (shift_back (suc n) k p h fits)

pub sext_wide :
    (sz width x : ℕ)
    → sz ≤ width
    → sext width sz x ≡ (
        op_shl width (widen width x) (width - sz) >>= λ w. to_shifted_sbits width w >>= λ sx.
        shr_signed width sx (width - sz) >>= λ moved. of_shifted_sbits width moved)
unfolding sext
sext_wide sz width x h = rw (widest, le→leb sz width h) refl
  where
    widest : max_size sz width ≡ width
    widest = ground arith

pub shr_signed_lem : (sz k : ℕ) (sx : ℤ) → k < promoted sz → shr_signed sz sx k ≡ some (asr_ℤ sx k)
unfolding shr_signed
shr_signed_lem sz k sx p = rw (lt→ltb _ _ p)
