-- ===== src/Driver/Trace/Main.antt =====
-- `main` with a trace against `main` without one.
use koika.Prelude.{
  ℕ, zero, suc, ◌+◌, ◌%◌, ◌^◌, ◌<◌, ◌≡◌, refl, sym, ap, arith, Option, none, some, List,
}
use mathlib.Core.Path.{subst}
use koika.Prelude.Loop.{iterate}
use koika.Driver.{
  Simulator, Metadata, Design, apply_finish, finish, cycle, run_cycles, init_and_run, initial_meta,
  report, ncycles_of, main,
}
use koika.Driver.Exit.{after}
use koika.Driver.Trace.{main_traced}
use koika.Driver.Trace.Replay.{IsSound, vcd_readvars-trace}
use koika.Vcd.Header.{Register}
use koika.Vcd.State.{vcd_readvars, AreRegisters, Fits}

apply_finish-cycle_id :
    (call : Option (ℕ × ℕ)) (meta : Metadata) → (apply_finish call meta).cycle_id ≡ meta.cycle_id
unfolding finish
apply_finish-cycle_id none meta = refl
apply_finish-cycle_id (some c) meta = refl

module _ {ℓ} {A : Type ℓ} (design : Design A) where
  pub cycle-cycle_id :
      (sim : Simulator A) → (cycle design sim).meta.cycle_id ≡ (sim.meta.cycle_id + 1) % 2 ^ 64
  unfolding cycle
  cycle-cycle_id sim = apply_finish-cycle_id (design.rules sim.state).1 _

  cycles-cycle_id :
      (k : ℕ) (sim : Simulator A)
      → sim.meta.cycle_id < 2 ^ 64
      → (iterate (cycle design) k sim).meta.cycle_id < 2 ^ 64
  cycles-cycle_id zero sim h = h
  cycles-cycle_id (suc k) sim h =
      cycles-cycle_id k (cycle design sim) (omega (arith, cycle-cycle_id sim))

  pub cycles-after :
      (k : ℕ) (sim : Simulator A) → (iterate (cycle design) k sim).state ≡ after design sim.state k
  unfolding cycle
  cycles-after zero sim = refl
  cycles-after (suc k) sim = cycles-after k (cycle design sim)

  pub cycles-IsSound :
      (regs : List Register) (snapshot : A → List ℕ) (sim : Simulator A)
      → sim.meta.cycle_id < 2 ^ 64
      → ((k : ℕ) → Fits regs (snapshot (after design sim.state k)))
      → (k : ℕ) → IsSound regs snapshot (iterate (cycle design) k sim)
  cycles-IsSound regs snapshot sim c fits k = (
    subst (λ a. Fits regs (snapshot a)) (sym (cycles-after k sim)) (fits k),
    cycles-cycle_id k sim c,
  )

-- For a design whose registers have 1 to 64 bits and different names, and values that fit after any
-- number of cycles, and a first cycle number of 64 bits: `main` with a trace prints the state and
-- exits as `main` without one does, and its file is one from which `vcd_readvars` restores, in any
-- state that fits, the registers at the end of the run and its cycle.
pub main_traced_lem {ℓ} :
    {A : Type ℓ} (regs : List Register) (snapshot : A → List ℕ) (design : Design A) (init : A)
    (cycle_id : ℕ) (argument : Option ℕ) (date : List ℕ) (scopes : List (List ℕ))
    → AreRegisters regs
    → cycle_id < 2 ^ 64
    → ((k : ℕ) → Fits regs (snapshot (after design init k)))
    → (file : List (List ℕ)) × (main_traced regs snapshot design init cycle_id argument date scopes
        ≡ (main design init cycle_id argument, some file))
      × ((s : List ℕ)
          → Fits regs s
          → vcd_readvars regs file s
            ≡ some (
              (init_and_run design init cycle_id (ncycles_of argument)).meta.cycle_id,
              snapshot (init_and_run design init cycle_id (ncycles_of argument)).state,
            ))
unfolding main_traced main init_and_run run_cycles
main_traced_lem {A = A} regs snapshot design init cycle_id argument date scopes g c fits =
    let (file, traced, restored) =
      vcd_readvars-trace regs snapshot g (cycle design) date scopes (ncycles_of argument) start
        (cycles-IsSound design regs snapshot start c fits) in
    (file, ap (λ (t : Simulator A × Option (List (List ℕ))). (report t.0, t.1)) traced, restored)
  where
    start : Simulator A
    start = record { state = init; meta = initial_meta cycle_id }
