-- ===== src/Bits/Examples.antt =====
-- The functions on `bits<sz>` at concrete widths and operands.
use koika.Prelude.{
  ℕ, ◌*◌, ◌+◌, ◌-◌, ◌/◌, ◌%◌, ◌^◌, ◌<◌, ◌≡◌, refl, arith, some, of_bool, ltb, [], ◌∷◌,
}
use koika.Bits.Arrays.{pack, unpack}
use koika.Bits.Arrays.Roundtrip.{unpack-pack}
use koika.Prelude.Int.{ltb_ℤ, leb_ℤ, asr_ℤ}
use koika.Bits.{storage, promoted, padding_width, op_not}
use koika.Bits.Arith.{op_not_lem}
use koika.Bits.Slice.{slice, slice_subst, concat}
use koika.Bits.Slice.Laws.{slice_lem, concat_lem}
use koika.Bits.Slice.Subst.{slice_subst_lem}
use koika.Bits.Signed.{sgt, sle, sge}
use koika.Bits.Signed.{signed, asr, sext, slt}
use koika.Bits.Signed.Native.{IsExact, asr_lem, sext_lem, signed_comparisons}
use koika.Bits.Signed.Padded.{IsPadded, slt-padded, sext-padded}

lt-promoted_example : 4 < promoted 32
unfolding promoted storage
lt-promoted_example = omega arith

-- The bits 4 to 11 of 0xABCD become 0x55.
slice_subst_lem_example :
    slice_subst 4 32 8 43981 85
    ≡ some (43981 / 2 ^ (4 + 8) * 2 ^ (4 + 8) + (85 * 2 ^ 4 + 43981 % 2 ^ 4))
slice_subst_lem_example =
    slice_subst_lem 4 32 8 (omega arith) (omega arith) 43981 85 lt-promoted_example (omega arith)
      (omega arith)

slice_lem_example : slice 4 8 32 43981 ≡ some (43981 / 2 ^ 4 % 2 ^ 8)
slice_lem_example =
    slice_lem 32 (omega arith) 4 8 43981 (omega arith) (omega arith) lt-promoted_example

concat-promoted : 3 < promoted (5 + 3)
unfolding promoted storage
concat-promoted = omega arith

concat_lem_example : concat 5 3 17 6 ≡ some (17 * 2 ^ 3 + 6)
concat_lem_example = concat_lem 5 3 17 6 (omega arith) concat-promoted (omega arith) (omega arith)

op_not_lem_example : op_not 5 9 ≡ 2 ^ 5 - 1 - 9
op_not_lem_example = op_not_lem 5 (omega arith) 9 (omega arith)

eight-IsExact : IsExact 8
unfolding storage
eight-IsExact = record { positive = omega arith; native = omega arith; exact = refl }

eight-promoted : 3 < promoted 8
unfolding promoted storage
eight-promoted = omega arith

-- 240 stands for -16.
asr_lem_example :
    (r : ℕ) × (asr 8 240 3 ≡ some r) × (r < 2 ^ 8) × (signed 8 r ≡ asr_ℤ (signed 8 240) 3)
asr_lem_example = asr_lem 8 240 3 eight-IsExact (omega arith) eight-promoted

sext_lem_example : (r : ℕ) × (sext 8 5 17 ≡ some r) × (r < 2 ^ 8) × (signed 8 r ≡ signed 5 17)
sext_lem_example = sext_lem 5 8 17 eight-IsExact (omega arith) (omega arith) (omega arith)

signed_comparisons_example :
    (slt 8 240 3 ≡ some (of_bool (ltb_ℤ (signed 8 240) (signed 8 3))))
    × (sgt 8 240 3 ≡ some (of_bool (ltb_ℤ (signed 8 3) (signed 8 240))))
    × (sle 8 240 3 ≡ some (of_bool (leb_ℤ (signed 8 240) (signed 8 3))))
    × (sge 8 240 3 ≡ some (of_bool (leb_ℤ (signed 8 3) (signed 8 240))))
signed_comparisons_example = signed_comparisons 8 240 3 eight-IsExact (omega arith) (omega arith)

five-IsPadded : IsPadded 5
unfolding storage
five-IsPadded = record { positive = omega arith; native = omega arith; padded = omega arith }

slt-padded_example :
    slt 5 17 3
    ≡ some (of_bool (ltb (17 * 2 ^ padding_width 5 % 2 ^ 5) (3 * 2 ^ padding_width 5 % 2 ^ 5)))
slt-padded_example = slt-padded 5 17 3 five-IsPadded

sext-padded_example : (r : ℕ) × (sext 5 3 7 ≡ some r) × (r < 2 ^ (3 - 1))
sext-padded_example = sext-padded 3 5 7 five-IsPadded (omega arith) (omega arith)

three-promoted : 5 < promoted (3 * 5)
unfolding promoted storage
three-promoted = omega arith

unpack-pack_example :
    (packed : ℕ) × (pack 5 (17 ∷ 0 ∷ 31 ∷ []) ≡ some packed)
    × (unpack 5 3 packed ≡ some (17 ∷ 0 ∷ 31 ∷ []))
unpack-pack_example =
    unpack-pack 5 (17 ∷ 0 ∷ 31 ∷ []) (omega arith) three-promoted
      (omega arith, (omega arith, (omega arith, tt)))
