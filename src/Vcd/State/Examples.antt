-- ===== src/Vcd/State/Examples.antt =====
-- Two registers, and a file with a value for one of them and a broken one for the other.
use koika.Prelude.{ℕ, ◌-◌, ◌^◌, ◌≡◌, refl, arith, false, some, List, [], ◌∷◌, codes}
use koika.Vcd.{read_header}
use koika.Vcd.Header.{Register}
use koika.Vcd.State.{vcd_readvars, same}
use koika.Vcd.State.Read.{Restores, vcd_readvars-returns}

abbrev regs : List Register
regs = record { name = codes "pc"; width = 8 } ∷ record { name = codes "ok"; width = 1 } ∷ []

abbrev file : List (List ℕ)
file =
    codes "$dumpvars" ∷ codes "#12" ∷ codes "b101 pc" ∷ [] ∷ codes "b2x ok" ∷ codes "b1 other" ∷ []

vcd_readvars-returns_example :
    Restores regs (vcd_readvars regs file (7 ∷ 1 ∷ []))
    × ((read_header file).0 ≡ false
        → vcd_readvars regs file (7 ∷ 1 ∷ []) ≡ some (2 ^ 64 - 1, 7 ∷ 1 ∷ []))
unfolding same
vcd_readvars-returns_example =
    vcd_readvars-returns regs file (7 ∷ 1 ∷ [])
      (
        omega arith,
        omega arith,
        (refl, (refl, tt)),
        (refl, tt),
        (omega arith, omega arith, (refl, (refl, tt)), tt, tt),
      )
      (omega arith, (omega arith, tt))
