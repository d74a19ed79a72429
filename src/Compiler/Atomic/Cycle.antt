-- ===== src/Compiler/Atomic/Cycle.antt =====
-- One rule at a time, in the compiled code.
use koika.Prelude.{ℕ, Bool, true, some, List, ◌≡◌, sym, ap, ◌∙◌, All}
use koika.Registers.Rule.{Sim}
use koika.Registers.Spec.{no_events, commit_update, latest_write}
use koika.Compiler.Atomic.{fired, fired-Calls, interp_scheduler-interp_each}
use koika.Compiler.Cycle.{accepted_schedule, StatesAre, cycle-commit_update}
use koika.Compiler.Random.{run_randomized, interp_each, run_randomized-interp_each}
use koika.Compiler.Schedule.{Scheduler, register_kinds, cycle, interp_scheduler}

module _ (registers : List ℕ) (sch : Scheduler) (R : ℕ → ℕ) where
  abbrev flags : List Bool
  flags = (interp_scheduler R no_events sch).0

  alone :
      All (λ ok. ok ≡ true) (interp_each (fired sch flags) R).0
      × ((interp_each (fired sch flags) R).1 ≡ commit_update R (interp_scheduler R no_events sch).1)
  unfolding commit_update latest_write
  alone = interp_scheduler-interp_each R sch no_events

  -- For a design in which every rule uses only declared registers, has no second operand that
  -- assigns a variable or mentions the one that the result goes to, reads no register at port 1
  -- after a possible write at port 1, and fails without a reset only where it cannot have marked
  -- a read-write set: from logs that hold the same values, a cycle of the compiled code ends, and
  -- so does a randomized run by just the rules that have committed in the cycle, in their order.
  -- There each of them, in a cycle of its own, commits again, and the registers end with the same
  -- values.
  pub cycle-one_at_a_time :
      (s : Sim)
      → accepted_schedule registers (register_kinds sch) sch ≡ true
      → StatesAre R s
      → (oks fired_oks : List Bool) × (s' t' : Sim) × (cycle registers sch s ≡ some (oks, s'))
        × (run_randomized registers sch (fired sch oks) s ≡ some (fired_oks, t'))
        × All (λ ok. ok ≡ true) fired_oks
        × ((r : ℕ) → t'.cycle_log.state r ≡ s'.cycle_log.state r)
  cycle-one_at_a_time s e states =
      let (s', ran, after) = cycle-commit_update registers sch R s e states in
      let (t', each, stored) =
        run_randomized-interp_each registers sch (fired sch flags) R s e (fired-Calls sch flags)
          states in
      (
        flags,
        (interp_each (fired sch flags) R).0,
        s',
        t',
        ran,
        each,
        alone.0,
        λ r. (stored r).0 ∙ ap (λ f. f r) alone.1 ∙ sym (after r).0,
      )
