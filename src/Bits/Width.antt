-- ===== src/Bits/Width.antt =====
-- The storage, the mask and the casts of `bits<sz>` as arithmetic.
use koika.Prelude.{
  ℕ, zero, suc, ◌+◌, ◌-◌, ◌*◌, ◌%◌, ◌^◌, ◌≤◌, ◌<◌, ◌≡◌, ◌↔◌, arith, ◌∙◌, inl, inr, ltb, ◌&&◌,
  Bool-cases,
}
use koika.Prelude.Digits.{two_pow_pos, bit_and_mask, mod-lt_pow}
use koika.Prelude.Power.{fields-div, pow_split, mod-mod_pow, mod_small, ones_split}
use koika.Bits.{
  storage, promoted, padding_width, bitmask, mk, ones, op_and, mask, truncate, IsValid,
}

-- The widths that need no Boost.
abbrev pub IsNative : ℕ → Type 0
IsNative sz = sz ≤ 64

pub le-storage : (sz : ℕ) → IsNative sz → sz ≤ storage sz
unfolding storage
le-storage sz h = ground arith

storage-le : (sz : ℕ) → storage sz ≤ 64
unfolding storage
storage-le sz = ground arith

pub storage-le-promoted : (sz : ℕ) → storage sz ≤ promoted sz
unfolding promoted
storage-le-promoted sz = ground arith

pub promoted-bounds : (sz : ℕ) → (32 ≤ promoted sz) × (promoted sz ≤ 64)
unfolding promoted storage
promoted-bounds sz = ground arith

pub padding_lem : (sz : ℕ) → IsNative sz → sz + padding_width sz ≡ storage sz
unfolding padding_width
padding_lem sz h = omega (arith, le-storage sz h)

mk-mod : (sz a : ℕ) → IsNative sz → mk sz a % 2 ^ sz ≡ a % 2 ^ sz
unfolding mk
mk-mod zero a h = omega arith
mk-mod (suc n) a h = mod-mod_pow a (le-storage (suc n) h)

-- A value that fits the width passes the cast unchanged.
pub mk_small : (sz a : ℕ) → IsNative sz → a < 2 ^ sz → mk sz a ≡ a
unfolding mk
mk_small zero a h p = omega arith
mk_small (suc n) a h p = mod_small p (le-storage (suc n) h)

mk-lt : (sz a : ℕ) → mk sz a < 2 ^ storage sz
unfolding mk
mk-lt zero a = two_pow_pos (storage 0)
mk-lt (suc n) a = mod-lt_pow a (storage (suc n))

module _ (sz : ℕ) (h : IsNative sz) where
  storage_split : 2 ^ storage sz ≡ 2 ^ sz * 2 ^ padding_width sz
  unfolding padding_width
  storage_split = pow_split (le-storage sz h)

  pub bitmask_lem : bitmask sz ≡ 2 ^ sz - 1
  unfolding bitmask
  bitmask_lem = ground (
    arith,
    storage_split,
    ones_split (2 ^ sz) (2 ^ padding_width sz),
    two_pow_pos sz,
    fields-div (padding_width sz) (2 ^ sz - 1) (2 ^ padding_width sz - 1),
    two_pow_pos (padding_width sz),
  )

  pub ones_lem : ones sz ≡ 2 ^ sz - 1
  unfolding ones
  ones_lem = rw bitmask_lem (mk_small sz _ h (omega (arith, two_pow_pos sz)))

  mask_lem : (a : ℕ) → mask sz a ≡ a % 2 ^ sz
  unfolding mask op_and
  mask_lem a = rw (ones_lem, bit_and_mask) (mk_small sz _ h (mod-lt_pow a sz))

  pub mask-mk : (a : ℕ) → mask sz (mk sz a) ≡ a % 2 ^ sz
  mask-mk a = mask_lem (mk sz a) ∙ mk-mod sz a h

  -- The invariant of the source says that the value is below 2 ^ sz.
  IsValid-iff : (v : ℕ) → IsValid sz v ↔ (v < 2 ^ sz)
  IsValid-iff v = (
    λ p. omega (arith, bitmask_lem, two_pow_pos sz),
    λ p. omega (arith, bitmask_lem, two_pow_pos sz),
  )

-- To a width of at most 64, `truncate` takes the value modulo `2 ^ ret_sz`, on both of its branches.
pub truncate_lem : (ret_sz sz v : ℕ) → IsNative ret_sz → truncate ret_sz sz v ≡ v % 2 ^ ret_sz
unfolding truncate
truncate_lem ret_sz sz v h = elim (Bool-cases (ltb 64 sz && ltb ret_sz sz)) [
  | inl wide ↦
      rw (wide, bitmask_lem ret_sz h, bit_and_mask) (mk_small ret_sz _ h (mod-lt_pow v ret_sz))
  | inr narrow ↦ rw narrow (mask-mk ret_sz h v)
]
