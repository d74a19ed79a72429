-- ===== src/Bits/Arrays/Roundtrip.antt =====
-- Unpacking a packed array.
use native.Mathlib.Nat.{mod-eq_of_lt, le_trans}
use mathlib.Core.List.{append-nil}
use koika.Prelude.{
  ℕ, suc, ◌+◌, ◌*◌, ◌^◌, ◌≤◌, ◌<◌, ◌≡◌, refl, sym, ap, ◌∙◌, arith, Option, some, List, [], ◌∷◌,
  ◌++◌, All, length, ◌>>=◌,
}
use koika.Prelude.Digits.{two_pow_pos, bit_or_fields}
use koika.Prelude.Power.{pow-le, fields-lt, fields-div, fields-mod}
use koika.Bits.{promoted, op_or, op_shl, widen}
use koika.Bits.Width.{IsNative, mk_small, truncate_lem}
use koika.Bits.Arith.{op_or_lem}
use koika.Bits.Slice.Laws.{op_shl_lem, op_shr_lem}
use koika.Bits.Arrays.{pack_loop, pack, unpack_loop, unpack}

-- The elements as the digits of a number, the first one highest.
abbrev digits_value : ℕ → ℕ → List ℕ → ℕ
digits_value e acc [] = acc
digits_value e acc (v ∷ vs) = digits_value e (acc * 2 ^ e + v) vs

abbrev FitsIn : ℕ → ℕ → Type 0
FitsIn e v = v < 2 ^ e

module _ (e sz : ℕ) (native : IsNative sz) (shift : e < promoted sz) where
  -- One more element still fits.
  next_fits : (k acc v : ℕ) → acc < 2 ^ (k * e) → v < 2 ^ e → acc * 2 ^ e + v < 2 ^ (suc k * e)
  next_fits k acc v p q =
      le_trans (fields-lt e (k * e) acc v p q) (pow-le {b = suc k * e} (grind arith))

  below : (k a : ℕ) → a < 2 ^ (k * e) → k * e ≤ sz → a < 2 ^ sz
  below k a p h = le_trans p (pow-le {b = sz} h)

  pack_step :
      (k acc v : ℕ)
      → acc < 2 ^ (k * e)
      → v < 2 ^ e
      → suc k * e ≤ sz
      → (rest : ℕ → Option ℕ)
      → (op_shl sz acc e >>= λ moved. rest (op_or sz moved (widen sz v))) ≡ rest (acc * 2 ^ e + v)
  unfolding widen
  pack_step k acc v p q h rest =
      rw (op_shl_lem sz native acc e shift, mod-eq_of_lt moved, mk_small sz v native element)
        (ap rest (op_or_lem sz native (acc * 2 ^ e) v moved element ∙ bit_or_fields e acc v q))
    where
      moved : acc * 2 ^ e < 2 ^ sz
      moved = below (suc k) (acc * 2 ^ e) (omega (arith, next_fits k acc v p q)) h

      element : v < 2 ^ sz
      element = below (suc k) v (omega (arith, next_fits k acc v p q)) h

  pack_loop_lem :
      (vs : List ℕ) (k acc : ℕ)
      → acc < 2 ^ (k * e)
      → (k + length vs) * e ≤ sz
      → All (FitsIn e) vs
      → pack_loop e sz acc vs ≡ some (digits_value e acc vs)
  unfolding pack_loop
  pack_loop_lem [] k acc p fits all = refl
  pack_loop_lem (v ∷ vs) k acc p fits all =
      pack_step k acc v p all.0 (grind arith) (λ packed. pack_loop e sz packed vs)
      ∙ pack_loop_lem vs (suc k) (acc * 2 ^ e + v) (next_fits k acc v p all.0)
          (rw (sym (shift_count k (length vs))) fits) all.1
    where
      shift_count : (a b : ℕ) → a + suc b ≡ suc a + b
      shift_count a b = omega arith

  unpack_step :
      (k n acc v : ℕ) (done : List ℕ)
      → acc < 2 ^ (k * e)
      → v < 2 ^ e
      → suc k * e ≤ sz
      → unpack_loop e sz (suc n) (acc * 2 ^ e + v) done ≡ unpack_loop e sz n acc (v ∷ done)
  unfolding unpack_loop
  unpack_step k n acc v done p q h =
      rw
        (
          op_shr_lem sz native (acc * 2 ^ e + v) e (below (suc k) _ (next_fits k acc v p q) h)
              shift,
          truncate_lem e sz (acc * 2 ^ e + v) narrow,
          fields-div e acc v q,
          fields-mod e acc v q,
        )
        refl
    where
      narrow : IsNative e
      narrow = le_trans (grind (arith, h)) native

  unpack_loop_lem :
      (vs : List ℕ) (k n acc : ℕ) (done : List ℕ)
      → acc < 2 ^ (k * e)
      → (k + length vs) * e ≤ sz
      → All (FitsIn e) vs
      → unpack_loop e sz (length vs + n) (digits_value e acc vs) done
        ≡ unpack_loop e sz n acc (vs ++ done)
  unpack_loop_lem [] k n acc done p fits all = ap (λ t. unpack_loop e sz t acc done) (omega arith)
  unpack_loop_lem (v ∷ vs) k n acc done p fits all =
      ap (λ t. unpack_loop e sz t (digits_value e (acc * 2 ^ e + v) vs) done) count
      ∙ unpack_loop_lem vs (suc k) (suc n) (acc * 2 ^ e + v) done (next_fits k acc v p all.0)
          (rw (sym again) fits) all.1
      ∙ unpack_step k n acc v (vs ++ done) p all.0 (grind arith)
    where
      count : length (v ∷ vs) + n ≡ length vs + suc n
      count = omega arith

      again : k + length (v ∷ vs) ≡ suc k + length vs
      again = omega arith

-- An array of elements that fit their width, which is below the promoted width of the packed vector,
-- itself of at most 64 bits: `pack` is defined, and `unpack` of its result gives the array back.
pub unpack-pack :
    (elem_sz : ℕ) (vs : List ℕ)
    → IsNative (length vs * elem_sz)
    → elem_sz < promoted (length vs * elem_sz)
    → All (FitsIn elem_sz) vs
    → (packed : ℕ) × (pack elem_sz vs ≡ some packed) × (unpack elem_sz (length vs) packed ≡ some vs)
unfolding pack unpack unpack_loop
unpack-pack e vs native shift all =
    (digits_value e 0 vs, pack_loop_lem e sz native shift vs 0 0 start inside all, back)
  where
    sz : ℕ
    sz = length vs * e

    start : 0 < 2 ^ (0 * e)
    start = two_pow_pos (0 * e)

    inside : (0 + length vs) * e ≤ sz
    inside = omega arith

    back : unpack_loop e sz (length vs) (digits_value e 0 vs) [] ≡ some vs
    back =
        ap (λ t. unpack_loop e sz t (digits_value e 0 vs) []) (omega arith)
        ∙ unpack_loop_lem e sz native shift vs 0 0 0 [] start inside all
        ∙ ap some (append-nil vs)
