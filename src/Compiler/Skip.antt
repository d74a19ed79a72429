-- ===== src/Compiler/Skip.antt =====
-- Events that a rule has not made say nothing.
use koika.Prelude.{ℕ, Bool, true, false, List, [], ◌∷◌, ◌++◌, ◌≡◌, refl, sym, ◌∙◌}
use koika.Registers.Spec.{Event, has_read1, has_write0, has_write1, latest_write}
use koika.Registers.Refine.{Kind, summary}

pub absent : (b t : Bool) → (b ≡ true → t ≡ true) → t ≡ false → b ≡ false
absent true t f e = sym (f refl) ∙ e
absent false t f e = refl

module _ (L : List Event) where
  pub read1-skip : (es : List Event) → has_read1 es ≡ false → has_read1 (es ++ L) ≡ has_read1 L
  unfolding has_read1
  read1-skip [] h = refl
  read1-skip (Event.read0 ∷ es) h = read1-skip es h
  read1-skip (Event.read1 ∷ es) h = cc
  read1-skip (Event.write0 v ∷ es) h = read1-skip es h
  read1-skip (Event.write1 v ∷ es) h = read1-skip es h

  pub write0-skip : (es : List Event) → has_write0 es ≡ false → has_write0 (es ++ L) ≡ has_write0 L
  unfolding has_write0
  write0-skip [] h = refl
  write0-skip (Event.read0 ∷ es) h = write0-skip es h
  write0-skip (Event.read1 ∷ es) h = write0-skip es h
  write0-skip (Event.write0 v ∷ es) h = cc
  write0-skip (Event.write1 v ∷ es) h = write0-skip es h

  pub write1-skip : (es : List Event) → has_write1 es ≡ false → has_write1 (es ++ L) ≡ has_write1 L
  unfolding has_write1
  write1-skip [] h = refl
  write1-skip (Event.read0 ∷ es) h = write1-skip es h
  write1-skip (Event.read1 ∷ es) h = write1-skip es h
  write1-skip (Event.write0 v ∷ es) h = write1-skip es h
  write1-skip (Event.write1 v ∷ es) h = cc

  pub latest_write-skip :
      (d : ℕ) (es : List Event)
      → has_write0 es ≡ false
      → has_write1 es ≡ false
      → latest_write d (es ++ L) ≡ latest_write d L
  unfolding latest_write has_write0 has_write1
  latest_write-skip d [] h k = refl
  latest_write-skip d (Event.read0 ∷ es) h k = latest_write-skip d es h k
  latest_write-skip d (Event.read1 ∷ es) h k = latest_write-skip d es h k
  latest_write-skip d (Event.write0 v ∷ es) h k = cc
  latest_write-skip d (Event.write1 v ∷ es) h k = cc

  pub summary-skip :
      (k : Kind) (es : List Event)
      → has_read1 es ≡ false
      → has_write0 es ≡ false
      → has_write1 es ≡ false
      → summary k (es ++ L) ≡ summary k L
  summary-skip Kind.reg es a b c = rw (write0-skip es b) refl
  summary-skip Kind.wire es a b c = rw (read1-skip es a, write0-skip es b) refl
  summary-skip Kind.ehr es a b c = rw (read1-skip es a, write0-skip es b, write1-skip es c) refl
