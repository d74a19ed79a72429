-- ===== src/Memory.antt =====
-- The memories of the RISC-V simulator: `struct bram` of examples/rv/etc/rvcore.cuttlesim.cpp. The
-- structs of requests and responses are those of the design, examples/rv/RVCore.v.
pub mod Bytes
pub mod Queue
mod Examples
use koika.Prelude.{
  ℕ, ◌/◌, ◌^◌, ◌==◌, Bool, true, false, Option, none, some, ltb, of_bool, if◌then◌else◌, ◌>>=◌,
}
use koika.Bits.{op_and, op_or, mk}
use koika.Bits.Slice.{index}

pub record MemReq : Type 0 where
  pub byte_en : ℕ
  pub addr : ℕ
  pub «data» : ℕ

pub record MemResp : Type 0 where
  pub byte_en : ℕ
  pub addr : ℕ
  pub «data» : ℕ

pub record MemInput : Type 0 where
  pub get_ready : ℕ
  pub put_valid : ℕ
  pub put_request : MemReq

pub record MemOutput : Type 0 where
  pub get_valid : ℕ
  pub put_ready : ℕ
  pub get_response : MemResp

-- `DMEM_SIZE`, in words.
abbrev pub dmem_size : ℕ
dmem_size = 2 ^ 25

-- What `new bits<32>[DMEM_SIZE]` leaves in `mem` is not determined: any words.
pub record Bram : Type 0 where
  pub mem : ℕ → ℕ
  pub last : Option MemReq

abbrev pub to_bool : ℕ → Bool
to_bool v = if v == 0 then false else true

-- `(dEn[…] ? data : current) & mask`
unfoldable pub lane : ℕ → ℕ → ℕ → ℕ → ℕ → Option ℕ
lane dEn «data» current k bytes = do
  en ← index 4 dEn k
  some (op_and 32 (if to_bool en then «data» else current) bytes)

unfoldable pub merge : ℕ → ℕ → ℕ → Option ℕ
merge dEn «data» current = do
  b0 ← lane dEn «data» current 0 0x000000ff
  b1 ← lane dEn «data» current 1 0x0000ff00
  b2 ← lane dEn «data» current 2 0x00ff0000
  b3 ← lane dEn «data» current 3 0xff000000
  some (op_or 32 (op_or 32 (op_or 32 b0 b1) b2) b3)

-- An access beyond the array is undefined: `none`.
unfoldable pub load : (ℕ → ℕ) → ℕ → Option ℕ
load mem i = if ltb i dmem_size then some (mem i) else none

abbrev write_word : (ℕ → ℕ) → ℕ → ℕ → ℕ → ℕ
write_word mem i v j = if j == i then v else mem j

-- The read and the write that a pending request asks for.
unfoldable pub access : (ℕ → ℕ) → MemReq → Option (MemResp × (ℕ → ℕ))
access mem req = do
  current ← load mem (req.addr / 2 ^ 2)
  word ← merge req.byte_en req.«data» current
  some (
    record { byte_en = req.byte_en; addr = req.addr; «data» = current },
    write_word mem (req.addr / 2 ^ 2) word,
  )

unfoldable pub get_pending : Bram → Option MemReq → Option (Option MemResp × Bram)
get_pending b none = some (none, b)
get_pending b (some req) = do
  (resp, mem) ← access b.mem req
  some (some resp, record { mem = mem; last = none })

unfoldable pub get : Bram → Bool → Option (Option MemResp × Bram)
get b false = some (none, b)
get b true = get_pending b b.last

unfoldable pub put : Bram → Option MemReq → Bool × Bram
put b none = (false, b)
put b (some req) = elim b.last [
  | some other ↦ (false, b)
  | none ↦ (true, record b { last = some req })
]

abbrev pub no_response : MemResp
no_response = record { byte_en = 0; addr = 0; «data» = 0 }

abbrev pub has_value : Option MemResp → Bool
has_value none = false
has_value (some resp) = true

abbrev pub value_or : Option MemResp → MemResp → MemResp
value_or none d = d
value_or (some resp) d = resp

unfoldable pub getput : Bram → MemInput → Option (MemOutput × Bram)
getput b req = do
  (get_response, b₁) ← get b (to_bool req.get_ready)
  let (put_ready, b₂) = put b₁ (if to_bool req.put_valid then some req.put_request else none)
  some (
    record {
      get_valid = of_bool (has_value get_response);
      put_ready = of_bool put_ready;
      get_response = value_or get_response no_response;
    },
    b₂,
  )
