-- ===== src/Verilator/Bench/Unreset.antt =====
-- What the drivers of examples/fft.v.etc/driver.cpp and examples/fir.v.etc/driver.cpp run.
use koika.Prelude.{ℕ, zero, suc, Bool, true, false, ◌≡◌, refl, ap, ◌∙◌}
use koika.Prelude.Loop.{iterate}
use koika.Verilator.{Dut, Toplevel, clock, reset_signal, eval_dut, toplevel}
use koika.Verilator.Run.{clock_cycle}
use koika.Verilator.Bench.{pulse_reset, pulse_clock, bench_loop, bench_main}

module _ {ℓ} {A : Type ℓ} (dut : Dut A) where
  abbrev waiting : A → Toplevel A
  waiting a = record { clk = false; rst_n = true; time = 0; inner = a }

  bench_loop-iterate :
      (n : ℕ) (a : A) → bench_loop dut n (waiting a) ≡ waiting (iterate (clock_cycle dut) n a)
  unfolding bench_loop pulse_clock eval_dut clock
  bench_loop-iterate zero a = refl
  bench_loop-iterate (suc n) a = bench_loop-iterate n (clock_cycle dut a)

  -- The design with RST_N high and the clock low.
  abbrev pub idle : A → A
  idle a = dut.eval false true a

  pulse_reset-idle :
      (rst_n : Bool) (init : A)
      → ((r : Bool) (a : A) → dut.eval false r a ≡ idle a)
      → pulse_reset dut (toplevel false rst_n init) ≡ waiting (idle (idle (idle init)))
  unfolding pulse_reset eval_dut reset_signal
  pulse_reset-idle rst_n init synchronous =
      ap (λ a. waiting (idle a)) (synchronous false (idle init))

  -- For a design that is reset at an edge of its clock only, so that an evaluation with the clock low
  -- does not depend on RST_N: if the clock is low at first, the program prints what the design has
  -- after evaluations and clock cycles in all of which RST_N is high. It is never reset.
  pub bench_main-never_reset :
      (rd : A → ℕ) (rst_n : Bool) (init : A)
      → ((r : Bool) (a : A) → dut.eval false r a ≡ idle a)
      → bench_main dut rd (toplevel false rst_n init)
        ≡ rd (iterate (clock_cycle dut) 1_000_000_000 (idle (idle (idle init))))
  unfolding bench_main
  bench_main-never_reset rd rst_n init synchronous =
      ap (λ (top : Toplevel A). rd top.inner)
        (ap (bench_loop dut 1_000_000_000) (pulse_reset-idle rst_n init synchronous)
          ∙ bench_loop-iterate 1_000_000_000 (idle (idle (idle init))))
