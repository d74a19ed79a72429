-- ===== src/Bits/Arrays.antt =====
-- Arrays of bit vectors, packed into one vector and unpacked again
-- (ocaml/backends/resources/cuttlesim.hpp). `none` is a shift that C++ leaves undefined.
pub mod Roundtrip
use koika.Prelude.{ℕ, zero, suc, ◌*◌, Option, some, List, [], ◌∷◌, length, set, ◌>>=◌}
use koika.Bits.{op_or, op_shl, op_shr, truncate, widen}

-- `replace<pos>(arr, val)`
abbrev replace {ℓ} : {A : Type ℓ} → ℕ → List A → A → List A
replace pos arr val = set arr pos val

-- The loop of `pack` over the elements, first to last.
pub pack_loop : ℕ → ℕ → ℕ → List ℕ → Option ℕ
pack_loop elem_sz packed_sz packed [] = some packed
pack_loop elem_sz packed_sz packed (v ∷ vs) = do
  moved ← op_shl packed_sz packed elem_sz
  pack_loop elem_sz packed_sz (op_or packed_sz moved (widen packed_sz v)) vs

pub pack : ℕ → List ℕ → Option ℕ
pack elem_sz vs = pack_loop elem_sz (length vs * elem_sz) 0 vs

-- The loop of `unpack`, which fills the array from its end: `done` is what it has filled.
pub unpack_loop : ℕ → ℕ → ℕ → ℕ → List ℕ → Option (List ℕ)
unpack_loop elem_sz packed_sz zero bs done = some done
unpack_loop elem_sz packed_sz (suc n) bs done = do
  rest ← op_shr packed_sz bs elem_sz
  unpack_loop elem_sz packed_sz n rest (truncate elem_sz packed_sz bs ∷ done)

pub unpack : ℕ → ℕ → ℕ → Option (List ℕ)
unpack elem_sz len bs = unpack_loop elem_sz (len * elem_sz) len bs []
