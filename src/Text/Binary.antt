-- ===== src/Text/Binary.antt =====
-- The binary digits of a vector, printed and read back.
use native.Mathlib.Nat.{mod-eq_of_lt, pow-suc}
use koika.Prelude.{All}
use koika.Prelude.{
  ℕ, zero, suc, ◌+◌, ◌-◌, ◌*◌, ◌/◌, ◌%◌, ◌^◌, ◌≤◌, ◌<◌, ◌≡◌, refl, sym, ap, ◌∙◌, arith, some, List,
  [], ◌∷◌, length, drop, ◌==◌, Bool-cases, inl, inr, if-true, if-false,
}
use mathlib.Core.Path.{subst}
use koika.Prelude.Digits.{two_pow_pos, mul-pow-suc, bit_or_fields, mod-lt_pow}
use koika.Prelude.Power.{fields_of, fields-div, div-lt_pow, mod-mod_pow}
use koika.Bits.{op_or}
use koika.Bits.Width.{IsNative, truncate_lem}
use koika.Bits.Arith.{op_or_lem}
use koika.Bits.Slice.{max_size}
use koika.Bits.Slice.Laws.{op_shl_lem, op_shr_lem, lt-promoted}
use koika.Text.{of_str_loop, of_str, bin_loop, bin_digits}

-- The digits from bit `pos - 1` down to bit 0.
abbrev bits_of : ℕ → ℕ → List ℕ
bits_of v zero = []
bits_of v (suc pos) = (0x30 + v / 2 ^ pos % 2 ^ 1) ∷ bits_of v pos

length-bits_of : (v pos : ℕ) → length (bits_of v pos) ≡ pos
length-bits_of v zero = refl
length-bits_of v (suc pos) = omega (arith, length-bits_of v pos)

-- One bit more of a remainder.
split_bit : (v pos : ℕ) → v % 2 ^ suc pos ≡ v / 2 ^ pos % 2 ^ 1 * 2 ^ pos + v % 2 ^ pos
split_bit v pos = omega (arith, fields_of pos w, ap (λ t. t * 2 ^ pos) bit, low)
  where
    w : ℕ
    w = v % 2 ^ suc pos

    low : w % 2 ^ pos ≡ v % 2 ^ pos
    low = mod-mod_pow v {k = pos} {w = suc pos} (omega arith)

    whole : v ≡ (v / 2 ^ suc pos * 2 + w / 2 ^ pos) * 2 ^ pos + w % 2 ^ pos
    whole = grind (arith, fields_of (suc pos) v, fields_of pos w, mul-pow-suc (v / 2 ^ suc pos) pos)

    same : suc pos ≡ pos + 1
    same = omega arith

    small : w / 2 ^ pos < 2 ^ 1
    small = div-lt_pow w pos 1 (subst (λ t. w < 2 ^ t) same (mod-lt_pow v (suc pos)))

    bit : w / 2 ^ pos ≡ v / 2 ^ pos % 2 ^ 1
    bit = omega (
      arith,
      small,
      ap (λ t. t / 2 ^ pos) whole,
      fields-div pos (v / 2 ^ suc pos * 2 + w / 2 ^ pos) (w % 2 ^ pos) (mod-lt_pow w pos),
    )

module _ (sz v : ℕ) (native : IsNative sz) (fits : v < 2 ^ sz) where
  bin_loop_lem : (pos : ℕ) → pos ≤ sz → bin_loop sz v pos ≡ some (bits_of v pos)
  unfolding bin_loop
  bin_loop_lem zero h = refl
  bin_loop_lem (suc pos) h =
      rw
        (
          op_shr_lem sz native v pos fits (lt-promoted sz native pos h),
          truncate_lem 1 sz (v / 2 ^ pos) (omega arith),
          bin_loop_lem pos (omega (arith, h)),
        )
        refl

  module _ (pos high : ℕ) (room : high * 2 ^ suc pos + v % 2 ^ suc pos < 2 ^ sz) where
    doubled : high * 2 ^ suc pos ≡ high * 2 * 2 ^ pos
    doubled = grind (arith, mul-pow-suc high pos)

    -- A set bit goes below the bits that are there.
    set_bit :
        v / 2 ^ pos % 2 ^ 1 ≡ 1
        → (op_or sz (high * 2 ^ suc pos) (1 * 2 ^ pos % 2 ^ sz) ≡ (high * 2 + 1) * 2 ^ pos)
          × ((high * 2 + 1) * 2 ^ pos + v % 2 ^ pos ≡ high * 2 ^ suc pos + v % 2 ^ suc pos)
    set_bit b = (
      ap (op_or sz (high * 2 ^ suc pos)) (ap (λ t. t % 2 ^ sz) one-mul' ∙ mod-eq_of_lt bit_fits)
          ∙ op_or_lem sz native (high * 2 ^ suc pos) (2 ^ pos) (omega (arith, room)) bit_fits
          ∙ bit_or_fields (suc pos) high (2 ^ pos) (omega (arith, pow-suc 2 pos, two_pow_pos pos))
          ∙ grind (arith, doubled),
      grind (arith, doubled, split, b),
    )
      where
        split : v % 2 ^ suc pos ≡ 2 ^ pos + v % 2 ^ pos
        split = split_bit v pos ∙ ap (λ t. t * 2 ^ pos + v % 2 ^ pos) b ∙ omega arith

        one-mul' : 1 * 2 ^ pos ≡ 2 ^ pos
        one-mul' = omega arith

        bit_fits : 2 ^ pos < 2 ^ sz
        bit_fits = omega (arith, room, split)

    -- A bit that is not set is not printed as 1.
    clear_bit :
        v / 2 ^ pos % 2 ^ 1 ≡ 0
        → high * 2 * 2 ^ pos + v % 2 ^ pos ≡ high * 2 ^ suc pos + v % 2 ^ suc pos
    clear_bit b = grind (arith, doubled, split)
      where
        split : v % 2 ^ suc pos ≡ v % 2 ^ pos
        split = split_bit v pos ∙ ap (λ t. t * 2 ^ pos + v % 2 ^ pos) b ∙ omega arith

  -- Reading adds the bits below `pos` to a number that has only higher ones.
  read_lem :
      (pos high : ℕ)
      → pos ≤ sz
      → high * 2 ^ pos + v % 2 ^ pos < 2 ^ sz
      → of_str_loop sz (bits_of v pos) (high * 2 ^ pos) ≡ some (high * 2 ^ pos + v % 2 ^ pos)
  unfolding of_str_loop
  read_lem zero high h room = ap some (omega arith)
  read_lem (suc pos) high h room = elim (Bool-cases (0x30 + v / 2 ^ pos % 2 ^ 1 == 0x31)) [
    | inl one ↦
        let (joined, total) = set_bit pos high room (ground (arith, one)) in
        if-true _ _ _ one
        ∙ rw
            (length-bits_of v pos, op_shl_lem sz native 1 pos (lt-promoted sz native pos h), joined)
            (read_lem pos (high * 2 + 1) (omega (arith, h)) (rw total room) ∙ ap some total)
    | inr other ↦
        let total = clear_bit pos high room (ground (arith, other)) in
        if-false _ _ _ other
        ∙ ap (of_str_loop sz (bits_of v pos)) (doubled pos high room)
        ∙ read_lem pos (high * 2) (omega (arith, h)) (rw total room)
        ∙ ap some total
  ]

no_drop : (n sz : ℕ) → n ≤ sz → max_size n sz - sz ≡ 0
no_drop n sz h = ground arith

-- For a value that fits its width of 1 to 64 bits, printing its digits in base 2 is defined, and
-- `of_str` reads the value back from them.
of_str-bin_digits :
    (sz v : ℕ)
    → 0 < sz
    → IsNative sz
    → v < 2 ^ sz
    → (str : List ℕ) × (bin_digits sz v ≡ some str) × (of_str sz str ≡ some v)
unfolding bin_digits of_str
of_str-bin_digits sz v h native fits = elim (Bool-cases (v == 0)) [
  | inl vanishes ↦ (
    0x30 ∷ [],
    rw vanishes refl,
    ap (λ n. of_str_loop sz (drop n (0x30 ∷ [])) 0) (no_drop 1 sz (omega (arith, h)))
        ∙ zero_read (ground (arith, vanishes)),
  )
  | inr positive ↦ (
    bits_of v sz,
    rw positive (bin_loop_lem sz v native fits sz (omega arith)),
    ap (λ n. of_str_loop sz (drop n (bits_of v sz)) 0)
          (no_drop (length (bits_of v sz)) sz (omega (arith, length-bits_of v sz)))
        ∙ ap (of_str_loop sz (bits_of v sz)) nothing
        ∙ read_lem sz v native fits sz 0 (omega arith) (omega (arith, mod-lt_pow v sz))
        ∙ ap some (omega (arith, mod-eq_of_lt fits)),
  )
]
  where
    nothing : 0 ≡ 0 * 2 ^ sz
    nothing = omega arith

    zero_read : v ≡ 0 → of_str_loop sz (0x30 ∷ []) 0 ≡ some v
    zero_read e = unfold of_str_loop in ap some (sym e)

-- A binary digit.
abbrev pub IsBit : ℕ → Type 0
IsBit c = (0x30 ≤ c) × (c ≤ 0x31)

bits_of-IsBit : (v pos : ℕ) → All IsBit (bits_of v pos)
bits_of-IsBit v zero = tt
bits_of-IsBit v (suc pos) = ((omega arith, omega arith), bits_of-IsBit v pos)

one_dropped :
    (sz : ℕ) (cs : List ℕ)
    → length cs ≡ sz
    → drop (max_size (suc (length cs)) sz - sz) (0x62 ∷ cs) ≡ cs
one_dropped sz cs h = ap (λ n. drop n (0x62 ∷ cs)) (one sz (length cs) h)
  where
    one : (a b : ℕ) → b ≡ a → max_size (suc b) a - a ≡ 1
    one a b e = ground (arith, e)

-- The digits are bits, and `of_str` reads them as well after the `b` that marks a binary number.
pub of_str_marked :
    (sz v : ℕ)
    → 0 < sz
    → IsNative sz
    → v < 2 ^ sz
    → (str : List ℕ) × (bin_digits sz v ≡ some str)
      × (of_str sz (0x62 ∷ str) ≡ some v)
      × All IsBit str
unfolding bin_digits of_str
of_str_marked sz v h native fits = elim (Bool-cases (v == 0)) [
  | inl vanishes ↦ (
    0x30 ∷ [],
    rw vanishes refl,
    zero_read (max_size 2 sz - sz) (ground (arith, vanishes)),
    ((omega arith, omega arith), tt),
  )
  | inr positive ↦ (
    bits_of v sz,
    rw positive (bin_loop_lem sz v native fits sz (omega arith)),
    ap (λ cs. of_str_loop sz cs 0) (one_dropped sz (bits_of v sz) (length-bits_of v sz))
        ∙ ap (of_str_loop sz (bits_of v sz)) nothing
        ∙ read_lem sz v native fits sz 0 (omega arith) (omega (arith, mod-lt_pow v sz))
        ∙ ap some (omega (arith, mod-eq_of_lt fits)),
    bits_of-IsBit v sz,
  )
]
  where
    nothing : 0 ≡ 0 * 2 ^ sz
    nothing = omega arith

    zero_read : (n : ℕ) → v ≡ 0 → of_str_loop sz (drop n (0x62 ∷ 0x30 ∷ [])) 0 ≡ some v
    zero_read zero e = unfold of_str_loop in ap some (sym e)
    zero_read (suc zero) e = unfold of_str_loop in ap some (sym e)
    zero_read (suc (suc zero)) e = unfold of_str_loop in ap some (sym e)
    zero_read (suc (suc (suc n))) e = unfold of_str_loop in ap some (sym e)
