-- ===== src/Driver/Resume.antt =====
-- examples/save_restore.v.etc/save_restore.cpp: a simulator that starts from a file and saves its state
-- there at the end. `snapshot` gives the registers' values in `Log`, and `set_state` puts values there.
pub mod Alike
pub mod Laws
mod Examples
use koika.Prelude.{ℕ, true, Option, some, List, ◌>>=◌}
use koika.Driver.{Simulator, Design, run_cycles, initial_meta, ncycles_of}
use koika.Vcd.Header.{Register, vcd_header}
use koika.Vcd.State.{vcd_dumpvars, vcd_readvars}

-- The part of a simulator that the compiler generates.
pub record Module {ℓ} (A : Type ℓ) : Type ℓ where
  pub regs : List Register
  pub snapshot : A → List ℕ
  pub set_state : A → List ℕ → A
  pub design : Design A
  pub init : A

module _ {ℓ} {A : Type ℓ} (m : Module A) where
  unfoldable pub save : List ℕ → List (List ℕ) → Simulator A → Option (List (List ℕ))
  save date scopes sim = do
    let latest = m.snapshot sim.state
    lines ← vcd_dumpvars m.regs sim.meta.cycle_id latest latest true
    some (vcd_header date scopes m.regs lines)

  unfoldable pub load : List (List ℕ) → Simulator A → Option (Simulator A)
  load file sim = do
    (cycle_id, vs) ← vcd_readvars m.regs file (m.snapshot sim.state)
    some (record sim {
      state = m.set_state sim.state vs;
      meta = record sim.meta { cycle_id = cycle_id };
    })

  -- `simulator sim{}`; the constructor leaves the cycle as it is.
  abbrev pub new_simulator : ℕ → Simulator A
  new_simulator cycle_id = record { state = m.init; meta = initial_meta cycle_id }

  -- `main`: the file that it saves, from the one that it loads.
  unfoldable pub resume :
      List ℕ → List (List ℕ) → ℕ → Option ℕ → List (List ℕ) → Option (List (List ℕ))
  resume date scopes cycle_id argument file = do
    sim ← load file (new_simulator cycle_id)
    save date scopes (run_cycles m.design (ncycles_of argument) sim)
