-- ===== src/Driver/Trace.antt =====
-- Runs with a VCD trace: `init_and_trace` of ocaml/backends/resources/cuttlesim.hpp and `trace`, which
-- ocaml/backends/cpp.ml prints for a design, in terms of one of its functions `cycle` and
-- `cycle_randomized`. `snapshot` gives the registers' values in `Log`.
pub mod Replay
pub mod Main
mod Examples
use koika.Prelude.{ℕ, true, false, Option, some, Bool, List, ◌++◌, map, ◌>>=◌}
use koika.Prelude.Loop.{loop}
use koika.Driver.{Simulator, finished, Design, cycle, initial_meta, report, ncycles_of}
use koika.Vcd.Header.{Register, vcd_header}
use koika.Vcd.State.{vcd_dumpvars}

-- The simulator, `latest`, and the lines written after the header.
pub record Tracing {ℓ} (A : Type ℓ) : Type ℓ where
  pub sim : Simulator A
  pub latest : List ℕ
  pub vcd : Option (List (List ℕ))

module _ {ℓ} {A : Type ℓ} (regs : List Register) (snapshot : A → List ℕ) where
  unfoldable pub trace_start : Simulator A → Tracing A
  trace_start sim =
      let latest = snapshot sim.state in
      record {
        sim = sim;
        latest = latest;
        vcd = vcd_dumpvars regs sim.meta.cycle_id latest latest true;
      }

  -- The body of the loop.
  unfoldable pub trace_step : (Simulator A → Simulator A) → Tracing A → Tracing A
  trace_step next t =
      let sim : Simulator A = next t.sim in
      let current = snapshot sim.state in
      record {
        sim = sim;
        latest = current;
        vcd = do
          lines ← t.vcd
          more ← vcd_dumpvars regs sim.meta.cycle_id current t.latest false
          some (lines ++ more);
      }

  -- `trace` and `trace_randomized`: the simulator and the file.
  unfoldable pub trace :
      List ℕ
      → List (List ℕ)
      → (Simulator A → Simulator A)
      → ℕ
      → Simulator A
      → Simulator A × Option (List (List ℕ))
  unfolding trace_start trace_step
  trace date scopes next ncycles sim =
      let end : Tracing A =
        loop (λ t. finished t.sim) (trace_step next) ncycles (trace_start sim) in
      (end.sim, end.vcd >>= λ lines. some (vcd_header date scopes regs lines))

  -- `main` with a trace: what it reports, and the file.
  unfoldable pub main_traced :
      Design A → A → ℕ → Option ℕ → List ℕ → List (List ℕ) → (Bool × ℕ) × Option (List (List ℕ))
  unfolding trace
  main_traced design init cycle_id argument date scopes =
      let (sim, file) =
        trace date scopes (cycle design) (ncycles_of argument)
          (record { state = init; meta = initial_meta cycle_id }) in
      (report sim, file)
