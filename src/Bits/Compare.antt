-- ===== src/Bits/Compare.antt =====
-- The unsigned comparisons of `bits<sz>` together.
use koika.Prelude.{ℕ, ◌+◌, ◌≡◌, refl, ap, arith, Bool, true, false, of_bool, ltb, ◌==◌}
use koika.Bits.{storage, mk, op_eq, op_ne, op_lt, op_gt, op_le, op_ge, lnot}

bit_of : (b : Bool) → mk 1 (of_bool b) ≡ of_bool b
unfolding mk storage
bit_of true = refl
bit_of false = refl

-- Exactly one of `<`, `==` and `>` gives 1, and `<=`, `>=` and `!=` are the negations of `>`, `<` and
-- `==` by `!`.
comparisons_lem :
    (x y : ℕ)
    → (op_lt x y + op_eq x y + op_gt x y ≡ 1)
      × (op_le x y ≡ lnot (op_gt x y))
      × (op_ge x y ≡ lnot (op_lt x y))
      × (op_ne x y ≡ lnot (op_eq x y))
unfolding op_lt op_eq op_gt op_le op_ge op_ne lnot
comparisons_lem x y =
    rw (bit_of (ltb x y), bit_of (x == y), bit_of (ltb y x))
      (
        ground arith,
        ap (λ t. mk 1 t) (ground arith),
        ap (λ t. mk 1 t) (ground arith),
        ap (λ t. mk 1 t) (ground arith),
      )
