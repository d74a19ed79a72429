-- ===== src/Verilator/Bench/Examples.antt =====
-- A counter that is reset at the rising edge: `last` is the clock before.
use koika.Prelude.{ℕ, ◌+◌, Bool, true, false, ◌≡◌, refl, if◌then◌else◌}
use koika.Prelude.Loop.{iterate}
use koika.Verilator.{Dut, toplevel}
use koika.Verilator.Run.{clock_cycle}
use koika.Verilator.Bench.{bench_main}
use koika.Verilator.Bench.Unreset.{idle, bench_main-never_reset}

abbrev State : Type 0
State = Bool × ℕ

abbrev edge : Bool → Bool → State → State
edge false rst_n s = (false, s.1)
edge true rst_n (true, n) = (true, n)
edge true rst_n (false, n) = (true, if rst_n then n + 1 else 0)

abbrev counter : Dut State
counter = record { eval = edge; got_finish = λ s. false }

bench_main-never_reset_example :
    bench_main counter (λ s. s.1) (toplevel false true (false, 77))
    ≡ (iterate
        (clock_cycle counter)
        1_000_000_000
        (idle counter (idle counter (idle counter (false, 77))))).1
bench_main-never_reset_example =
    bench_main-never_reset counter (λ s. s.1) true (false, 77) (λ r a. refl)
