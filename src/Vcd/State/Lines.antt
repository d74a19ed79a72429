-- ===== src/Vcd/State/Lines.antt =====
-- The line of one register, written and read back.
use koika.Prelude.{
  ℕ, ◌^◌, ◌<◌, ◌≤◌, ◌≡◌, refl, arith, Bool, true, false, not, ◌||◌, some, List, [], ◌∷◌, ◌++◌, All,
  length, ◌==◌,
}
use koika.Text.{of_str}
use koika.Text.Binary.{of_str_marked}
use koika.Vcd.{readvar, Reader, dumpvar}
use koika.Vcd.Restore.{dumpvar_line, readvar_line, bits-IsWord}
use koika.Vcd.Header.{Register}
use koika.Text.Number.{read_number}
use koika.Vcd.State.{same, assign, IsName}

same_refl : (xs : List ℕ) → same xs xs ≡ true
unfolding same
same_refl [] = refl
same_refl (x ∷ xs) = ground (arith, same_refl xs)

-- No register of a list has this name.
abbrev pub IsApart : List Register → List ℕ → Type 0
IsApart done name = All (λ (d : Register). same name d.name ≡ false) done

-- A value goes to its register, past those with other names.
pub assign_at :
    (done : List Register) (cs : List ℕ) (x : Register) (xs : List Register) (val : List ℕ)
    (v p : ℕ) (ps : List ℕ)
    → length done ≡ length cs
    → IsApart done x.name
    → of_str x.width val ≡ some v
    → assign (done ++ (x ∷ xs)) x.name val (cs ++ (p ∷ ps)) ≡ some (cs ++ (v ∷ ps))
unfolding assign
assign_at [] [] x xs val v p ps h apart read = rw (same_refl x.name, read) refl
assign_at [] (c ∷ cs) x xs val v p ps h apart read = absurd (omega (arith, h))
assign_at (d ∷ done) [] x xs val v p ps h apart read = absurd (omega (arith, h))
assign_at (d ∷ done) (c ∷ cs) x xs val v p ps h apart read =
    rw (apart.0, assign_at done cs x xs val v p ps (omega (arith, h)) apart.1 read) refl

-- The line of a register that is written: it is found, with its value.
pub line_back :
    (name : List ℕ) (sz v q : ℕ) (force : Bool)
    → IsName name
    → 0 < sz
    → sz ≤ 64
    → v < 2 ^ sz
    → (force || not (v == q)) ≡ true
    → (line : List ℕ) × (val : List ℕ) × (dumpvar sz name v q force ≡ some (line ∷ []))
      × (of_str sz val ≡ some v)
      × ((r : Reader) (lines : List (List ℕ))
          → readvar read_number (line ∷ lines) r
            ≡ (true, record { cycle_id = r.cycle_id; name = name; val = val; lines = lines }))
line_back [] sz v q force word pos native fits written = absurd word
line_back (c ∷ cs) sz v q force word pos native fits written =
    let (str, printed, back, digits) = of_str_marked sz v pos native fits in
    (
      (0x62 ∷ str) ++ (0x20 ∷ c ∷ cs),
      0x62 ∷ str,
      dumpvar_line sz (c ∷ cs) v q force str written printed,
      back,
      λ r lines. readvar_line read_number c cs str r lines (refl, bits-IsWord str digits) word,
    )

pub no_line :
    (name : List ℕ) (sz v q : ℕ) (force : Bool)
    → (force || not (v == q)) ≡ false
    → (dumpvar sz name v q force ≡ some []) × (v ≡ q) × (force ≡ false)
unfolding dumpvar
no_line name sz v q force h = (rw h refl, ground (arith, h), ground (arith, h))
