-- ===== src/Bits/Signed.antt =====
-- Signed views of `bits<sz>`, arithmetic shifts, signed comparisons, sign extension and repetition
-- (ocaml/backends/resources/cuttlesim.hpp).
pub mod Shifted
pub mod Native
pub mod Padded
pub mod Repeat
use koika.Prelude.{
  ℕ, zero, suc, ◌+◌, ◌-◌, ◌*◌, ◌^◌, Bool, Option, none, some, ltb, leb, if◌then◌else◌, of_bool,
  ◌>>=◌,
}
use koika.Prelude.Int.{ℤ, pos, negsuc, ltb_ℤ, leb_ℤ, asr_ℤ}
use koika.Bits.{storage, promoted, padding_width, mk, op_shl, op_shr, widen}
use koika.Bits.Slice.{max_size, concat}

-- The integer that a vector of `sz` bits stands for in two's complement.
abbrev pub signed : ℕ → ℕ → ℤ
signed sz v = if ltb v (2 ^ (sz - 1)) then pos v else negsuc (2 ^ sz - 1 - v)

-- `memcpy` from the unsigned to the signed storage type: two's complement.
pub to_sbits : ℕ → ℕ → ℤ
to_sbits zero v = pos 0
to_sbits (suc n) v =
    if ltb v (2 ^ (storage (suc n) - 1)) then pos v else negsuc (2 ^ storage (suc n) - 1 - v)

pub of_sbits : ℕ → ℤ → ℕ
of_sbits zero sx = 0
of_sbits (suc n) (pos k) = mk (suc n) k
of_sbits (suc n) (negsuc k) = mk (suc n) (2 ^ storage (suc n) - 1 - k)

pub to_shifted_sbits : ℕ → ℕ → Option ℤ
to_shifted_sbits zero v = some (pos 0)
to_shifted_sbits (suc n) v = do
  w ← op_shl (suc n) v (padding_width (suc n))
  some (to_sbits (suc n) w)

pub of_shifted_sbits : ℕ → ℤ → Option ℕ
of_shifted_sbits zero sx = some 0
of_shifted_sbits (suc n) sx = op_shr (suc n) (of_sbits (suc n) sx) (padding_width (suc n))

-- `>>` on the signed storage type, promoted to `int` where it is narrow.
pub shr_signed : ℕ → ℤ → ℕ → Option ℤ
shr_signed sz sx shift = if ltb shift (promoted sz) then some (asr_ℤ sx shift) else none

pub asr : ℕ → ℕ → ℕ → Option ℕ
asr sz data1 shift = do
  sx ← to_shifted_sbits sz data1
  moved ← shr_signed sz sx shift
  of_shifted_sbits sz moved

-- The four signed comparisons compare the shifted views.
pub compare_signed : (ℤ → ℤ → Bool) → ℕ → ℕ → ℕ → Option ℕ
compare_signed test sz x y = do
  a ← to_shifted_sbits sz x
  b ← to_shifted_sbits sz y
  some (mk 1 (of_bool (test a b)))

pub slt : ℕ → ℕ → ℕ → Option ℕ
slt = compare_signed ltb_ℤ

pub sgt : ℕ → ℕ → ℕ → Option ℕ
sgt = compare_signed (λ a b. ltb_ℤ b a)

pub sle : ℕ → ℕ → ℕ → Option ℕ
sle = compare_signed leb_ℤ

pub sge : ℕ → ℕ → ℕ → Option ℕ
sge = compare_signed (λ a b. leb_ℤ b a)

pub sext : ℕ → ℕ → ℕ → Option ℕ
sext width sz x =
    let maxsz = max_size sz width in
    let nbits = if leb sz width then width - sz else 0 in
    do
      w ← op_shl maxsz (widen maxsz x) nbits
      sx ← to_shifted_sbits maxsz w
      moved ← shr_signed maxsz sx nbits
      of_shifted_sbits maxsz moved

-- `repeat_t<times, sz>`. The specialisations for `sz == 1` and for `times <= 1` overlap, and a use
-- that both match does not compile: `none`.
pub repeat : ℕ → ℕ → ℕ → Option ℕ
repeat zero (suc zero) bs = none
repeat (suc zero) (suc zero) bs = none
repeat zero sz bs = some 0
repeat (suc zero) sz bs = some bs
repeat (suc (suc times)) (suc zero) bs = sext (suc (suc times)) 1 bs
repeat (suc (suc times)) sz bs = do
  left ← repeat (suc times) sz bs
  concat (sz * suc times) sz left bs
