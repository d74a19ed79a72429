-- ===== src/Verilator/Bench.antt =====
-- The other drivers of designs that Verilator compiles: `main` of examples/fft.v.etc/driver.cpp and of
-- examples/fir.v.etc/driver.cpp, `TB` of examples/fft.v.etc/mkfft_verilator.cpp and of
-- examples/fir.v.etc/mkfir_verilator.cpp, and `BlackboxWrapper` of
-- examples/cosimulation.v.etc/cosimulation.cpp.
pub mod Unreset
mod Examples
use koika.Prelude.{ℕ, zero, suc, Bool, true, false, List}
use koika.Verilator.{Dut, Toplevel, clock, reset_signal, eval_dut, run, cli_arguments}
use koika.Verilator.Trace.{number_of, main_without_trace}

module _ {ℓ} {A : Type ℓ} (dut : Dut A) where
  -- The reset of driver.cpp: three evaluations, with the clock as it is.
  unfoldable pub pulse_reset : Toplevel A → Toplevel A
  pulse_reset top =
      let idle = eval_dut dut (reset_signal true top) in
      let low = eval_dut dut (reset_signal false idle) in eval_dut dut (reset_signal true low)

  unfoldable pub pulse_clock : Toplevel A → Toplevel A
  pulse_clock top = eval_dut dut (clock false (eval_dut dut (clock true top)))

  -- `while (i < n)`
  unfoldable pub bench_loop : ℕ → Toplevel A → Toplevel A
  bench_loop zero top = top
  bench_loop (suc n) top = bench_loop n (pulse_clock top)

  -- `main`: the number that it prints, by the field `rd` of the design.
  unfoldable pub bench_main : (A → ℕ) → Toplevel A → ℕ
  unfolding bench_loop pulse_reset pulse_clock
  bench_main rd top = rd (bench_loop 1_000_000_000 (pulse_reset top)).inner

  -- `TB::run`: the object, and the number that it prints.
  pub tb_run : (A → ℕ) → ℕ → Toplevel A → Toplevel A × ℕ
  tb_run rd ncycles top = let ran : Toplevel A = run dut ncycles top in (ran, rd ran.inner)

  -- `main` of mkfft_verilator.cpp and of mkfir_verilator.cpp: the exit code, and the number printed.
  pub tb_main : (A → ℕ) → List (List ℕ) → Toplevel A → ℕ × ℕ
  unfolding tb_run
  tb_main rd args top = (0, (tb_run rd (number_of (cli_arguments args).0) top).1)

  -- `main` of examples/rv/etc/rvcore.verilator.cpp.
  abbrev pub rvcore_main : List (List ℕ) → Toplevel A → ℕ × Toplevel A
  rvcore_main args top = main_without_trace dut args top

-- A design with an input and an output of 32 bits, which is evaluated by its clock.
pub record Blackbox {ℓ} (A : Type ℓ) : Type ℓ where
  pub set_in : ℕ → A → A
  pub eval : Bool → A → A
  pub out : A → ℕ

-- `BlackboxWrapper::cycle` and `extfuns::blackbox`: the answer, and the design.
pub blackbox_cycle {ℓ} : {A : Type ℓ} → Blackbox A → A → A
blackbox_cycle box a = box.eval false (box.eval true a)

pub blackbox {ℓ} : {A : Type ℓ} → Blackbox A → ℕ → A → ℕ × A
unfolding blackbox_cycle
blackbox box input a = let after = blackbox_cycle box (box.set_in input a) in (box.out after, after)
