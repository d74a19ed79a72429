-- ===== src/Bits.antt =====
-- `prims::bits<sz>` of ocaml/backends/resources/cuttlesim.hpp. A value of `bits<sz>` is its field
-- `v`, a number; the width `sz` is an argument of each operation.
pub mod Width
pub mod Arith
pub mod Slice
pub mod Signed
pub mod Arrays
pub mod Compare
pub mod Assign
mod Examples
use koika.Prelude.{
  ℕ, zero, suc, ◌+◌, ◌-◌, ◌*◌, ◌/◌, ◌%◌, ◌^◌, ◌≤◌, Bool, ◌&&◌, ◌||◌, Option, none, some, bit_and,
  bit_or, bit_xor, ltb, leb, ◌==◌, if◌then◌else◌, of_bool, ◌>>=◌, not,
}

-- The digits of the storage type `bits_t<sz>`. Above 64 the type is one of Boost's integers.
unfoldable pub storage : ℕ → ℕ
storage sz = if leb sz 8 then 8 else if leb sz 16 then 16 else if leb sz 32 then 32 else 64

-- The width in which C++ evaluates `data.v << n`, `data.v >> n` and `~data.v`: the narrow storage
-- types are promoted to `int`.
unfoldable pub promoted : ℕ → ℕ
promoted sz = if ltb (storage sz) 32 then 32 else storage sz

unfoldable pub padding_width : ℕ → ℕ
padding_width sz = storage sz - sz

-- `numeric_limits<bits_t<sz>>::max() >> padding_width()`.
unfoldable pub bitmask : ℕ → ℕ
bitmask sz = (2 ^ storage sz - 1) / 2 ^ padding_width sz

-- The representation invariant, which `invariant()` assumes.
abbrev pub IsValid : ℕ → ℕ → Type 0
IsValid sz v = v ≤ bitmask sz

-- `bits<sz>::mk` casts to the storage type; `bits<0>::mk` drops its argument.
pub mk : ℕ → ℕ → ℕ
mk zero arg = 0
mk (suc n) arg = arg % 2 ^ storage (suc n)

pub ones : ℕ → ℕ
ones sz = mk sz (bitmask sz)

pub op_and : ℕ → ℕ → ℕ → ℕ
op_and sz data1 data2 = mk sz (bit_and data1 data2)

pub op_or : ℕ → ℕ → ℕ → ℕ
op_or sz data1 data2 = mk sz (bit_or data1 data2)

pub op_xor : ℕ → ℕ → ℕ → ℕ
op_xor sz data1 data2 = mk sz (bit_xor data1 data2)

pub mask : ℕ → ℕ → ℕ
mask sz arg = op_and sz arg (ones sz)

pub widen : ℕ → ℕ → ℕ
widen ret_sz arg = mk ret_sz arg

pub truncate : ℕ → ℕ → ℕ → ℕ
truncate ret_sz sz arg =
    if ltb 64 sz && ltb ret_sz sz
    then mk ret_sz (bit_and arg (bitmask ret_sz))
    else mask ret_sz (mk ret_sz arg)

-- `~v`, as a bit pattern of the promoted type.
pub complement : ℕ → ℕ → ℕ
complement sz v = 2 ^ promoted sz - 1 - v

pub op_not : ℕ → ℕ → ℕ
op_not sz v = mask sz (mk sz (complement sz v))

pub op_add : ℕ → ℕ → ℕ → ℕ
op_add sz x y = mask sz (mk sz (x + y))

pub op_sub : ℕ → ℕ → ℕ → ℕ
op_sub sz x y = mask sz (mk sz (x + complement sz y + 1))

pub op_mul : ℕ → ℕ → ℕ → ℕ → ℕ
op_mul sz_x sz_y x y =
    mask (sz_x + sz_y) (mk (sz_x + sz_y) (widen (sz_x + sz_y) x * widen (sz_x + sz_y) y))

-- Comparisons return a `bits<1>`.
pub op_eq : ℕ → ℕ → ℕ
op_eq x y = mk 1 (of_bool (x == y))

pub op_ne : ℕ → ℕ → ℕ
op_ne x y = mk 1 (of_bool (not (x == y)))

pub op_lt : ℕ → ℕ → ℕ
op_lt x y = mk 1 (of_bool (ltb x y))

pub op_gt : ℕ → ℕ → ℕ
op_gt x y = mk 1 (of_bool (ltb y x))

pub op_le : ℕ → ℕ → ℕ
op_le x y = mk 1 (of_bool (leb x y))

pub op_ge : ℕ → ℕ → ℕ
op_ge x y = mk 1 (of_bool (leb y x))

-- `operator!` on a `bits<1>`.
pub lnot : ℕ → ℕ
lnot x = mk 1 (of_bool (x == 0))

-- C++ leaves a shift by the promoted width or more undefined: `none`.
pub op_shr : ℕ → ℕ → ℕ → Option ℕ
op_shr sz v shift = if ltb shift (promoted sz) then some (mk sz (v / 2 ^ shift)) else none

-- What a signed `<<` shifts out of a promoted value is lost, as GCC and C++20 define it.
pub op_shl : ℕ → ℕ → ℕ → Option ℕ
op_shl sz v shift = if ltb shift (promoted sz) then some (mask sz (mk sz (v * 2 ^ shift))) else none
