-- ===== src/Verilator/Trace/Examples.antt =====
-- The counter of the runs, traced: `9 a`.
use koika.Prelude.{ℕ, ◌≡◌, refl, false, true, none, some, List, [], ◌∷◌, codes}
use koika.Prelude.Loop.{Turns}
use koika.Verilator.{toplevel, cli_arguments, Dut, skip_plus}
use koika.Verilator.Run.{after_reset, clock_cycle}
use koika.Verilator.Trace.{number_of, main_with_trace}
use koika.Verilator.Trace.Dumps.{traced_object, main_with_trace_lem}
use koika.Prelude.{◌+◌, ◌==◌, if◌then◌else◌}

abbrev counter : Dut ℕ
counter = record {
  eval = λ clk rst_n a. if clk then (if rst_n then a + 1 else 0) else a;
  got_finish = λ a. a == 3;
}

abbrev args : List (List ℕ)
args = codes "9" ∷ codes "a" ∷ []

main_with_trace_lem_example :
    ((cli_arguments args).1 ≡ none
      → main_with_trace counter args (toplevel false true 77) ≡ (1, none))
    × ((path : List ℕ)
        → (cli_arguments args).1 ≡ some path
        → (k : ℕ) × (main_with_trace counter args (toplevel false true 77)
            ≡ (0, some (traced_object counter k 77)))
          × Turns counter.got_finish
              (clock_cycle counter)
              (number_of (cli_arguments args).0)
              (after_reset counter 77)
              k)
main_with_trace_lem_example = main_with_trace_lem counter false true 77 args

given : (cli_arguments args).1 ≡ some (codes "a")
unfolding cli_arguments skip_plus
given = refl
