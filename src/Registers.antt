-- ===== src/Registers.antt =====
-- The read-write sets of ocaml/backends/resources/cuttlesim.hpp and its functions on registers.
pub mod Rule
pub mod Spec
pub mod Refine
pub mod Atomic
pub mod Fast
pub mod Function
pub mod Dynamic
mod Examples
use koika.Prelude.{ℕ, Bool, true, false, not, ◌||◌, Option, none, some, ◌>>=◌}

-- `reg_rwset`, `wire_rwset` and `ehr_rwset`, with their bits in the order of the source.
pub data Rwset : Type 0 where
  reg : Bool → Rwset
  wire : Bool → Bool → Rwset
  ehr : Bool → Bool → Bool → Rwset

-- A member function that a kind of set lacks does not compile: `none`.
unfoldable pub may_read0 : Rwset → Option Bool
may_read0 (Rwset.reg w0) = some (not w0)
may_read0 (Rwset.wire r1 w0) = none
may_read0 (Rwset.ehr r1 w0 w1) = some (not (w1 || w0))

unfoldable pub may_read1 : Rwset → Option Bool
may_read1 (Rwset.reg w0) = none
may_read1 (Rwset.wire r1 w0) = some true
may_read1 (Rwset.ehr r1 w0 w1) = some (not w1)

unfoldable pub may_write0 : Rwset → Option Bool
may_write0 (Rwset.reg w0) = some (not w0)
may_write0 (Rwset.wire r1 w0) = some (not (r1 || w0))
may_write0 (Rwset.ehr r1 w0 w1) = some (not (r1 || w0 || w1))

unfoldable pub may_write1 : Rwset → Option Bool
may_write1 (Rwset.reg w0) = none
may_write1 (Rwset.wire r1 w0) = none
may_write1 (Rwset.ehr r1 w0 w1) = some (not w1)

-- `reset()`, which is also what the constructors give.
unfoldable pub reset : Rwset → Rwset
reset (Rwset.reg w0) = Rwset.reg false
reset (Rwset.wire r1 w0) = Rwset.wire false false
reset (Rwset.ehr r1 w0 w1) = Rwset.ehr false false false

-- `rwl.r1 = true`, `rwl.w0 = true` and `rwl.w1 = true`, where the kind has the field.
unfoldable pub set_r1 : Rwset → Option Rwset
set_r1 (Rwset.reg w0) = none
set_r1 (Rwset.wire r1 w0) = some (Rwset.wire true w0)
set_r1 (Rwset.ehr r1 w0 w1) = some (Rwset.ehr true w0 w1)

unfoldable pub set_w0 : Rwset → Option Rwset
set_w0 (Rwset.reg w0) = some (Rwset.reg true)
set_w0 (Rwset.wire r1 w0) = some (Rwset.wire r1 true)
set_w0 (Rwset.ehr r1 w0 w1) = some (Rwset.ehr r1 true w1)

unfoldable pub set_w1 : Rwset → Option Rwset
set_w1 (Rwset.reg w0) = none
set_w1 (Rwset.wire r1 w0) = none
set_w1 (Rwset.ehr r1 w0 w1) = some (Rwset.ehr r1 w0 true)

-- What an access leaves: its verdict, the value read or stored, and the set of the rule's log.
pub record Access : Type 0 where
  pub ok : Bool
  pub value : ℕ
  pub rwset : Rwset

-- `read0(target, rL, rwl, rwL)`: `rwL` is the set of the cycle's log, `rwl` that of the rule's log.
unfoldable pub read0 : ℕ → Rwset → Rwset → Option Access
read0 rL rwl rwL = do ok ← may_read0 rwL; some (record { ok = ok; value = rL; rwset = rwl })

unfoldable pub read1 : ℕ → Rwset → Rwset → Option Access
read1 rl rwl rwL = do
  ok ← may_read1 rwL
  rwset ← set_r1 rwl
  some (record { ok = ok; value = rl; rwset = rwset })

unfoldable pub write0 : ℕ → Rwset → Option Access
write0 val rwl = do
  ok ← may_write0 rwl
  rwset ← set_w0 rwl
  some (record { ok = ok; value = val; rwset = rwset })

unfoldable pub write1 : ℕ → Rwset → Option Access
write1 val rwl = do
  ok ← may_write1 rwl
  rwset ← set_w1 rwl
  some (record { ok = ok; value = val; rwset = rwset })
