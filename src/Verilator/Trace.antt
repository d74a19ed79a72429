-- ===== src/Verilator/Trace.antt =====
-- Runs with a trace: `dump`, `trace` and `_main` of ocaml/backends/resources/verilator.hpp, compiled
-- with TRACE. Verilator's VerilatedVcdC is what it has been given: the object at each `dump`.
pub mod Dumps
mod Examples
use koika.Prelude.{ℕ, zero, suc, ◌-◌, ◌^◌, false, true, Option, none, some, List, [], ◌∷◌, ◌++◌}
use koika.Prelude.Loop.{loop}
use koika.Text.Number.{read_number}
use koika.Verilator.{
  Dut, Toplevel, clock, reset_signal, eval_dut, tick, run, toplevel, cli_arguments,
}

-- The object, and the dumps so far.
pub record Traced {ℓ} (A : Type ℓ) : Type ℓ where
  pub top : Toplevel A
  pub dumps : List (Toplevel A)

-- `static_cast<std::uint64_t>(std::strtoull(argv[offset], nullptr, 10))`, or UINT64_MAX.
abbrev pub number_of : Option (List ℕ) → ℕ
number_of none = 2 ^ 64 - 1
number_of (some text) = read_number text 0

module _ {ℓ} {A : Type ℓ} (dut : Dut A) where
  unfoldable pub dump : Traced A → Traced A
  dump t = record t { dumps = t.dumps ++ (t.top ∷ []) }

  unfoldable pub traced_cycle : Traced A → Traced A
  unfolding dump
  traced_cycle t =
      let high : Traced A = dump (record t { top = tick dut true t.top }) in
      dump (record high { top = tick dut false high.top })

  unfoldable pub traced_reset : Traced A → Traced A
  unfolding traced_cycle
  traced_reset t =
      let low : Toplevel A = eval_dut dut (clock false (reset_signal false t.top)) in
      let cycled : Traced A = traced_cycle (record t { top = record low { time = 0 } }) in
      record cycled { top = reset_signal true cycled.top }

  -- `trace`, with a new VerilatedVcdC.
  unfoldable pub trace : ℕ → Toplevel A → Traced A
  unfolding traced_reset traced_cycle dump
  trace ncycles top = dump (
      loop (λ t. dut.got_finish t.top.inner) traced_cycle ncycles
        (traced_reset (record { top = top; dumps = [] })))

  -- `_main`: the exit code, and the object. Without a path for the trace it only prints how to use it.
  abbrev traced_main : Option (List ℕ) → Option (List ℕ) → Toplevel A → ℕ × Option (Traced A)
  traced_main ncycles none top = (1, none)
  traced_main ncycles (some path) top = (0, some (trace (number_of ncycles) top))

  unfoldable pub main_with_trace : List (List ℕ) → Toplevel A → ℕ × Option (Traced A)
  main_with_trace args top =
      let (ncycles, vcd_fpath) = cli_arguments args in traced_main ncycles vcd_fpath top

  -- `_main`, compiled without TRACE.
  unfoldable pub main_without_trace : List (List ℕ) → Toplevel A → ℕ × Toplevel A
  main_without_trace args top = (0, run dut (number_of (cli_arguments args).0) top)
