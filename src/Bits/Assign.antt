-- ===== src/Bits/Assign.antt =====
-- The special case `bits<0>` and the compound assignments of ocaml/backends/resources/cuttlesim.hpp:
-- those of `bits<0>` leave it alone, those of other widths go by the operators. An assignment is given
-- by the value that it leaves.
use koika.Prelude.{
  sym, ◌∙◌, none, if◌then◌else◌, ℕ, zero, suc, ◌≡◌, refl, ap, arith, Option, some, Bool, false,
  List, [], ◌∷◌, of_bool, ◌==◌, ◌&&◌, true,
}
use koika.Bits.{
  storage, padding_width, bitmask, IsValid, mk, ones, op_and, op_or, op_xor, op_add, op_sub, op_shl,
  op_shr, mask,
}
use koika.Bits.Slice.{index}

-- `bits<0>`, whose field `v` is stored in 8 digits.
abbrev empty_padding_width : ℕ
empty_padding_width = 8

abbrev empty_bitmask : ℕ
empty_bitmask = 0

abbrev IsEmpty : ℕ → Type 0
IsEmpty v = v ≡ 0

abbrev empty_ones : ℕ
empty_ones = 0

abbrev empty_index : ℕ → ℕ
empty_index idx = 0

abbrev empty_mk : ℕ → ℕ
empty_mk arg = 0

-- `&=`, `|=`, `^=`, `+=` and `-=` of `bits<0>`, and its `<<=` and `>>=`.
abbrev empty_assign : ℕ → ℕ → ℕ
empty_assign self arg = self

abbrev empty_shift : ℕ → ℕ → ℕ
empty_shift self shift = self

unfoldable and_assign : ℕ → ℕ → ℕ → ℕ
and_assign zero self arg = empty_assign self arg
and_assign (suc n) self arg = op_and (suc n) self arg

unfoldable or_assign : ℕ → ℕ → ℕ → ℕ
or_assign zero self arg = empty_assign self arg
or_assign (suc n) self arg = op_or (suc n) self arg

unfoldable xor_assign : ℕ → ℕ → ℕ → ℕ
xor_assign zero self arg = empty_assign self arg
xor_assign (suc n) self arg = op_xor (suc n) self arg

unfoldable add_assign : ℕ → ℕ → ℕ → ℕ
add_assign zero self arg = empty_assign self arg
add_assign (suc n) self arg = op_add (suc n) self arg

unfoldable sub_assign : ℕ → ℕ → ℕ → ℕ
sub_assign zero self arg = empty_assign self arg
sub_assign (suc n) self arg = op_sub (suc n) self arg

unfoldable shl_assign : ℕ → ℕ → ℕ → Option ℕ
shl_assign zero self shift = some (empty_shift self shift)
shl_assign (suc n) self shift = op_shl (suc n) self shift

unfoldable shr_assign : ℕ → ℕ → ℕ → Option ℕ
shr_assign zero self shift = some (empty_shift self shift)
shr_assign (suc n) self shift = op_shr (suc n) self shift

-- `operator==` on arrays of bit vectors.
abbrev same_elements : List ℕ → List ℕ → Bool
same_elements [] [] = true
same_elements [] (y ∷ ys) = false
same_elements (x ∷ xs) [] = false
same_elements (x ∷ xs) (y ∷ ys) = x == y && same_elements xs ys

unfoldable array_eq : List ℕ → List ℕ → ℕ
array_eq xs ys = mk 1 (of_bool (same_elements xs ys))

-- What the general template would give at width 0.
empty_lem :
    (v arg : ℕ)
    → (padding_width 0 ≡ empty_padding_width)
      × (bitmask 0 ≡ empty_bitmask)
      × (ones 0 ≡ empty_ones)
      × (mk 0 arg ≡ empty_mk arg)
      × (index 0 v arg ≡ some (empty_index arg))
unfolding padding_width bitmask ones mk index storage
empty_lem v arg = (refl, refl, refl, refl, refl)

IsValid-IsEmpty : (v : ℕ) → IsValid 0 v → IsEmpty v
unfolding bitmask storage padding_width
IsValid-IsEmpty v h = omega (arith, h)

if-mk : (b : Bool) (r : ℕ) → (if b then some 0 else none) ≡ some r → r ≡ 0
if-mk true r e = cc
if-mk false r e = cc

-- At every width, that of `bits<0>` included, a compound assignment to a vector that satisfies the
-- invariant leaves what the operator gives; one that shifts does so where the operator is defined.
assigns_lem :
    (sz self arg : ℕ)
    → IsValid sz self
    → (and_assign sz self arg ≡ op_and sz self arg)
      × (or_assign sz self arg ≡ op_or sz self arg)
      × (xor_assign sz self arg ≡ op_xor sz self arg)
      × (add_assign sz self arg ≡ op_add sz self arg)
      × (sub_assign sz self arg ≡ op_sub sz self arg)
      × ((r : ℕ) → op_shl sz self arg ≡ some r → shl_assign sz self arg ≡ some r)
      × ((r : ℕ) → op_shr sz self arg ≡ some r → shr_assign sz self arg ≡ some r)
unfolding and_assign or_assign xor_assign add_assign sub_assign shl_assign shr_assign op_and op_or
    op_xor op_add op_sub op_shl op_shr mask mk
assigns_lem zero self arg h =
    let e = IsValid-IsEmpty self h in
    (e, e, e, e, e, λ r d. ap some (e ∙ sym (if-mk _ r d)), λ r d. ap some (e ∙ sym (if-mk _ r d)))
assigns_lem (suc n) self arg h = (refl, refl, refl, refl, refl, λ r d. d, λ r d. d)
