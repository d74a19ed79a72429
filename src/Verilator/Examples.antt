-- ===== src/Verilator/Examples.antt =====
-- A counter with a synchronous reset that finishes at 3, and the arguments of a run.
use koika.Prelude.{ℕ, ◌+◌, ◌*◌, ◌≡◌, ◌==◌, refl, true, false, some, [], ◌∷◌, if◌then◌else◌}
use koika.Prelude.Loop.{iterate, Turns}
use koika.Verilator.{Dut, run, toplevel, cli_arguments, skip_plus}
use koika.Verilator.Run.{after_reset, clock_cycle, between, run_lem}

abbrev counter : Dut ℕ
counter = record {
  eval = λ clk rst_n a. if clk then (if rst_n then a + 1 else 0) else a;
  got_finish = λ a. a == 3;
}

run_lem_example :
    (k : ℕ) × (run counter 20 (toplevel false true 77)
      ≡ between counter (10 + k * 10) (iterate (clock_cycle counter) k (after_reset counter 77)))
    × Turns counter.got_finish (clock_cycle counter) 20 (after_reset counter 77) k
run_lem_example = run_lem counter false true 77 20

-- `+v 9 a`
arguments :
    cli_arguments ((0x2b ∷ 0x76 ∷ []) ∷ (0x39 ∷ []) ∷ (0x61 ∷ []) ∷ [])
    ≡ (some (0x39 ∷ []), some (0x61 ∷ []))
unfolding cli_arguments skip_plus
arguments = refl
