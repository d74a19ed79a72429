-- ===== src/Registers/Refine/Access.antt =====
-- Single accesses: on a summary, each gives the verdict of the reference semantics and the summary
-- of the log with its event.
use koika.Prelude.{ℕ, true, false, not, ◌&&◌, some, List, [], ◌∷◌, ◌++◌, ◌≡◌, refl, arith}
use koika.Registers.{
  read0, read1, write0, write1, may_read0, may_read1, may_write0, may_write1, set_r1, set_w0,
  set_w1,
}
use koika.Registers.Spec.{Event, has_read1, has_write0, has_write1, latest_write, latest_write0}
use koika.Registers.Refine.{Kind, has_port_read0, has_port_read1, has_port_write1, summary, Fits}

module _ (es L : List Event) where
  pub read0_lem :
      (k : Kind) (v : ℕ)
      → has_port_read0 k ≡ true
      → Fits k L
      → read0 v (summary k es) (summary k L)
        ≡ some (record {
          ok = not (has_write0 L) && not (has_write1 L);
          value = v;
          rwset = summary k (Event.read0 ∷ es);
        })
  unfolding read0 may_read0 has_read1 has_write0 has_write1
  read0_lem Kind.reg v p f = ground arith
  read0_lem Kind.wire v p f = cc
  read0_lem Kind.ehr v p f = ground arith

  pub read1_lem :
      (k : Kind) (v : ℕ)
      → has_port_read1 k ≡ true
      → Fits k L
      → read1 v (summary k es) (summary k L)
        ≡ some (record { ok = not (has_write1 L); value = v; rwset = summary k (Event.read1 ∷ es) })
  unfolding read1 may_read1 set_r1 has_read1 has_write0 has_write1
  read1_lem Kind.reg v p f = cc
  read1_lem Kind.wire v p f = ground arith
  read1_lem Kind.ehr v p f = ground arith

  pub write0_lem :
      (k : Kind) (v : ℕ)
      → Fits k es
      → write0 v (summary k es)
        ≡ some (record {
          ok = not (has_read1 es) && not (has_write0 es) && not (has_write1 es);
          value = v;
          rwset = summary k (Event.write0 v ∷ es);
        })
  unfolding write0 may_write0 set_w0 has_read1 has_write0 has_write1
  write0_lem Kind.reg v f = ground arith
  write0_lem Kind.wire v f = ground arith
  write0_lem Kind.ehr v f = ground arith

  pub write1_lem :
      (k : Kind) (v : ℕ)
      → has_port_write1 k ≡ true
      → write1 v (summary k es)
        ≡ some (record {
          ok = not (has_write1 es);
          value = v;
          rwset = summary k (Event.write1 v ∷ es);
        })
  unfolding write1 may_write1 set_w1 has_read1 has_write0 has_write1
  write1_lem Kind.reg v p = cc
  write1_lem Kind.wire v p = cc
  write1_lem Kind.ehr v p = ground arith

-- Without writes at port 1 the latest write is the latest at port 0; without any write it is none.
pub latest_of_no_write1 :
    (d : ℕ) (es : List Event) → has_write1 es ≡ false → latest_write0 d es ≡ latest_write d es
unfolding latest_write latest_write0 has_write1
latest_of_no_write1 d [] h = refl
latest_of_no_write1 d (Event.read0 ∷ es) h = latest_of_no_write1 d es h
latest_of_no_write1 d (Event.read1 ∷ es) h = latest_of_no_write1 d es h
latest_of_no_write1 d (Event.write0 v ∷ es) h = refl
latest_of_no_write1 d (Event.write1 v ∷ es) h = cc

pub latest_of_no_write :
    (d : ℕ) (es : List Event)
    → has_write0 es ≡ false
    → has_write1 es ≡ false
    → latest_write d es ≡ d
unfolding latest_write has_write0 has_write1
latest_of_no_write d [] h k = refl
latest_of_no_write d (Event.read0 ∷ es) h k = latest_of_no_write d es h k
latest_of_no_write d (Event.read1 ∷ es) h k = latest_of_no_write d es h k
latest_of_no_write d (Event.write0 v ∷ es) h k = cc
latest_of_no_write d (Event.write1 v ∷ es) h k = cc

pub has_write1-append :
    (es L : List Event)
    → has_write1 es ≡ false
    → has_write1 L ≡ false
    → has_write1 (es ++ L) ≡ false
unfolding has_write1
has_write1-append [] L h k = k
has_write1-append (Event.read0 ∷ es) L h k = has_write1-append es L h k
has_write1-append (Event.read1 ∷ es) L h k = has_write1-append es L h k
has_write1-append (Event.write0 v ∷ es) L h k = has_write1-append es L h k
has_write1-append (Event.write1 v ∷ es) L h k = cc

-- The kinds still fit after one more event.
module _ (es : List Event) where
  pub read0-Fits : (k : Kind) → Fits k es → Fits k (Event.read0 ∷ es)
  unfolding has_read1 has_write1
  read0-Fits Kind.reg f = f
  read0-Fits Kind.wire f = f
  read0-Fits Kind.ehr f = f

  pub read1-Fits : (k : Kind) → has_port_read1 k ≡ true → Fits k es → Fits k (Event.read1 ∷ es)
  unfolding has_read1 has_write1
  read1-Fits Kind.reg p f = cc
  read1-Fits Kind.wire p f = f
  read1-Fits Kind.ehr p f = f

  pub write0-Fits : (k : Kind) (v : ℕ) → Fits k es → Fits k (Event.write0 v ∷ es)
  unfolding has_read1 has_write1
  write0-Fits Kind.reg v f = f
  write0-Fits Kind.wire v f = f
  write0-Fits Kind.ehr v f = f

  pub write1-Fits : (k : Kind) (v : ℕ) → has_port_write1 k ≡ true → Fits k (Event.write1 v ∷ es)
  write1-Fits Kind.reg v p = cc
  write1-Fits Kind.wire v p = cc
  write1-Fits Kind.ehr v p = tt

pub summary-read0 : (k : Kind) (es : List Event) → summary k es ≡ summary k (Event.read0 ∷ es)
unfolding has_read1 has_write0 has_write1
summary-read0 Kind.reg es = refl
summary-read0 Kind.wire es = refl
summary-read0 Kind.ehr es = refl
