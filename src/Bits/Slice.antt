-- ===== src/Bits/Slice.antt =====
-- Slices, substitution, concatenation and extension of `bits<sz>`
-- (ocaml/backends/resources/cuttlesim.hpp). `none` is a shift that C++ leaves undefined.
pub mod Laws
pub mod Subst
pub mod Extend
use koika.Prelude.{ℕ, zero, suc, ◌+◌, ◌-◌, Option, some, ltb, if◌then◌else◌, ◌>>=◌}
use koika.Bits.{mk, ones, op_and, op_or, op_not, op_shl, op_shr, widen, truncate}

abbrev pub max_size : ℕ → ℕ → ℕ
max_size a b = if ltb a b then b else a

-- `sz == 0 ? 0 : truncate<1>(arg >> (sz - 1))`
msb : ℕ → ℕ → Option ℕ
msb zero arg = some 0
msb (suc n) arg = do x ← op_shr (suc n) arg n; some (truncate 1 (suc n) x)

-- `operator[]`; that of `bits<0>` is 0 at every index.
unfoldable pub index : ℕ → ℕ → ℕ → Option ℕ
index zero data1 idx = some 0
index (suc n) data1 idx = do x ← op_shr (suc n) data1 idx; some (truncate 1 (suc n) x)

-- `islice<width>` has the body of `slice<idx, width>`, with the index as an argument.
abbrev islice : ℕ → ℕ → ℕ → ℕ → Option ℕ
islice width sz «data» idx = do x ← op_shr sz «data» idx; some (truncate width sz x)

pub slice : ℕ → ℕ → ℕ → ℕ → Option ℕ
slice idx width sz data1 = do x ← op_shr sz data1 idx; some (truncate width sz x)

pub slice_subst : ℕ → ℕ → ℕ → ℕ → ℕ → Option ℕ
slice_subst idx sz width data1 repl = do
  hole ← op_shl sz (widen sz (ones width)) idx
  field ← op_shl sz (widen sz repl) idx
  some (op_or sz (op_and sz data1 (op_not sz hole)) field)

pub concat : ℕ → ℕ → ℕ → ℕ → Option ℕ
concat sz1 sz2 x y = do
  hi ← op_shl (sz1 + sz2) (widen (sz1 + sz2) x) sz2
  some (op_or (sz1 + sz2) hi (widen (sz1 + sz2) y))

pub zextl : ℕ → ℕ → ℕ → ℕ
zextl width sz x = widen (max_size sz width) x

pub zextr : ℕ → ℕ → ℕ → Option ℕ
zextr width sz x = op_shl (max_size sz width) (widen (max_size sz width) x) (max_size sz width - sz)
