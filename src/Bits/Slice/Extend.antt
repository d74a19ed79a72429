-- ===== src/Bits/Slice/Extend.antt =====
-- Extensions to the left and to the right, and the most significant bit.
use native.Mathlib.Nat.{mod-eq_of_lt, le_trans}
use koika.Prelude.{ℕ, ◌+◌, ◌-◌, ◌*◌, ◌/◌, ◌%◌, ◌^◌, ◌≤◌, ◌<◌, ◌≡◌, arith, ◌∙◌, ap, some}
use koika.Prelude.Digits.{two_pow_pos}
use koika.Prelude.Power.{pow-le, pow-add, fields-div}
use koika.Bits.{promoted, widen}
use koika.Bits.Width.{IsNative, mk_small}
use koika.Bits.Slice.{max_size, slice, zextl, zextr}
use koika.Bits.Slice.Laws.{placed, slice_lem, lt-promoted}

widest : (sz width : ℕ) → sz ≤ width → max_size sz width ≡ width
widest sz width h = ground arith

-- From a nonempty vector that fits its width to a width of at most 64 at least as large: `zextl`
-- keeps the value, `zextr` moves it to the top, and the slice of the top bits gives it back.
zextl-zextr :
    (sz width x : ℕ)
    → IsNative width
    → 0 < sz
    → sz ≤ width
    → x < 2 ^ sz
    → (zextl width sz x ≡ x)
      × (zextr width sz x ≡ some (x * 2 ^ (width - sz)))
      × (slice (width - sz) sz width (x * 2 ^ (width - sz)) ≡ some x)
unfolding zextl zextr widen
zextl-zextr sz width x native h le fits = rw (widest sz width le) (
  mk_small width x native (le_trans fits (pow-le {b = width} le)),
  placed (width - sz) width sz x native (omega arith) fits shift,
  slice_lem width native (width - sz) sz (x * 2 ^ (width - sz)) (omega (arith, le, native)) room
        shift
      ∙ ap some (ap (λ t. t % 2 ^ sz) quotient ∙ mod-eq_of_lt fits),
)
  where
    shift : width - sz < promoted width
    shift = lt-promoted width native (width - sz) (omega (arith, h, le))

    room : x * 2 ^ (width - sz) < 2 ^ width
    room =
        le_trans (grind (arith, pow-add (width - sz) sz, two_pow_pos (width - sz)))
          (pow-le {a = width - sz + sz} {b = width} (omega arith))

    quotient : x * 2 ^ (width - sz) / 2 ^ (width - sz) ≡ x
    quotient =
        ap (λ t. t / 2 ^ (width - sz)) (omega arith)
        ∙ fields-div (width - sz) x 0 (two_pow_pos (width - sz))
