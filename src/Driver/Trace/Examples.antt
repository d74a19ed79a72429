-- ===== src/Driver/Trace/Examples.antt =====
-- A counter of 4 bits, traced for 20 cycles.
use koika.Prelude.{
  ℕ, zero, suc, ◌+◌, ◌%◌, ◌^◌, ◌<◌, ◌≡◌, refl, arith, none, some, List, [], ◌∷◌, codes,
}
use koika.Driver.{Design, main, init_and_run, ncycles_of}
use koika.Driver.Exit.{after}
use koika.Driver.Trace.{main_traced}
use koika.Driver.Trace.Main.{main_traced_lem}
use koika.Vcd.Header.{Register}
use koika.Vcd.State.{vcd_readvars, Fits}

abbrev regs : List Register
regs = record { name = codes "counter"; width = 4 } ∷ []

abbrev snapshot : ℕ → List ℕ
snapshot n = n ∷ []

abbrev counter : Design ℕ
counter = record { rules = λ n. ((n + 1) % 2 ^ 4, none) }

stays : (k n : ℕ) → n < 2 ^ 4 → after counter n k < 2 ^ 4
stays zero n h = h
stays (suc k) n h = stays k ((n + 1) % 2 ^ 4) (omega arith)

main_traced_lem_example :
    (file : List (List ℕ)) × (main_traced regs snapshot counter 3 0
        (some 20)
        (codes "today")
        (codes "TOP" ∷ [])
      ≡ (main counter 3 0 (some 20), some file))
    × ((s : List ℕ)
        → Fits regs s
        → vcd_readvars regs file s
          ≡ some (
            (init_and_run counter 3 0 (ncycles_of (some 20))).meta.cycle_id,
            snapshot (init_and_run counter 3 0 (ncycles_of (some 20))).state,
          ))
main_traced_lem_example =
    main_traced_lem regs snapshot counter 3 0 (some 20) (codes "today") (codes "TOP" ∷ [])
      (omega arith, omega arith, (refl, (refl, (refl, (refl, (refl, (refl, (refl, tt))))))), tt, tt)
      (omega arith) (λ k. (stays k 3 (omega arith), tt))
