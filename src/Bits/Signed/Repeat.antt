-- ===== src/Bits/Signed/Repeat.antt =====
-- `repeat` copies a vector.
use native.Mathlib.Nat.{div-div-eq-div-mul}
use koika.Prelude.{
  ℕ, zero, suc, ◌+◌, ◌*◌, ◌/◌, ◌%◌, ◌^◌, ◌<◌, ◌≡◌, refl, arith, ◌∙◌, ap, sym, some, ◌>>=◌,
}
use koika.Prelude.Digits.{two_pow_pos}
use koika.Prelude.Power.{pow-add, fields-div, fields-mod, fields-lt}
use koika.Bits.Width.{IsNative}
use koika.Bits.Slice.{concat}
use koika.Bits.Slice.Laws.{concat_lem, lt-promoted}
use koika.Bits.Signed.{repeat}
use mathlib.Core.Path.{subst}

-- A number of `times` fields of `sz` bits, each of them `bs`.
abbrev pub Copies : ℕ → ℕ → ℕ → ℕ → Type 0
Copies sz times bs r =
    (r < 2 ^ (sz * times)) × ((i : ℕ) → i < times → r / 2 ^ (sz * i) % 2 ^ sz ≡ bs)

module _ (n bs : ℕ) (fits : bs < 2 ^ suc (suc n)) where
  one_more :
      (t left : ℕ)
      → Copies (suc (suc n)) t bs left
      → Copies (suc (suc n)) (suc t) bs (left * 2 ^ suc (suc n) + bs)
  one_more t left (small, copies) = (
    subst (λ e. left * 2 ^ suc (suc n) + bs < 2 ^ e) (omega arith)
        (fields-lt (suc (suc n)) (suc (suc n) * t) left bs small fits),
    fields,
  )
    where
      fields :
          (i : ℕ)
          → i < suc t
          → (left * 2 ^ suc (suc n) + bs) / 2 ^ (suc (suc n) * i) % 2 ^ suc (suc n) ≡ bs
      fields zero h =
          ap (λ e. (left * 2 ^ suc (suc n) + bs) / e % 2 ^ suc (suc n)) no_power
          ∙ ap (λ q. q % 2 ^ suc (suc n)) whole
          ∙ fields-mod (suc (suc n)) left bs fits
        where
          none_left : suc (suc n) * 0 ≡ 0
          none_left = omega arith

          no_power : 2 ^ (suc (suc n) * 0) ≡ 1
          no_power = ap (λ e. 2 ^ e) none_left

          whole : (left * 2 ^ suc (suc n) + bs) / 1 ≡ left * 2 ^ suc (suc n) + bs
          whole = omega arith
      fields (suc i) h =
          ap (λ e. (left * 2 ^ suc (suc n) + bs) / e % 2 ^ suc (suc n)) power
          ∙ ap (λ q. q % 2 ^ suc (suc n))
              (sym (
                div-div-eq-div-mul (left * 2 ^ suc (suc n) + bs) (2 ^ suc (suc n))
                  (2 ^ (suc (suc n) * i))))
          ∙ ap (λ q. q / 2 ^ (suc (suc n) * i) % 2 ^ suc (suc n))
              (fields-div (suc (suc n)) left bs fits)
          ∙ copies i (omega (arith, h))
        where
          next : suc (suc n) * suc i ≡ suc (suc n) + suc (suc n) * i
          next = omega arith

          power : 2 ^ (suc (suc n) * suc i) ≡ 2 ^ suc (suc n) * 2 ^ (suc (suc n) * i)
          power = ap (λ e. 2 ^ e) next ∙ pow-add (suc (suc n)) (suc (suc n) * i)

  -- For a vector of two bits or more that fits its width, repeated so that the result has 64 bits at
  -- most: `repeat` is defined, its result fits, and each of its fields is the vector.
  repeat-Copies :
      (times : ℕ)
      → IsNative (suc (suc n) * times)
      → (r : ℕ) × (repeat times (suc (suc n)) bs ≡ some r) × Copies (suc (suc n)) times bs r
  unfolding repeat
  repeat-Copies zero native = (0, refl, (two_pow_pos _, λ i h. absurd (omega (arith, h))))
  repeat-Copies (suc zero) native = (
    bs,
    refl,
    subst (Copies (suc (suc n)) 1 bs) alone
        (one_more 0 0 (two_pow_pos _, λ i h. absurd (omega (arith, h)))),
  )
    where
      alone : 0 * 2 ^ suc (suc n) + bs ≡ bs
      alone = omega arith
  repeat-Copies (suc (suc t)) native =
      let (left, before, copies) = repeat-Copies (suc t) (omega (arith, native)) in
      (
        left * 2 ^ suc (suc n) + bs,
        ap (λ o. o >>= λ l. concat (suc (suc n) * suc t) (suc (suc n)) l bs) before
            ∙ concat_lem (suc (suc n) * suc t) (suc (suc n)) left bs wide
                (lt-promoted _ wide (suc (suc n)) (grind arith)) copies.0 fits,
        one_more (suc t) left copies,
      )
    where
      wide : IsNative (suc (suc n) * suc t + suc (suc n))
      wide = omega (arith, native)
