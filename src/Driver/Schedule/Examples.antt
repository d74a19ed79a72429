-- ===== src/Driver/Schedule/Examples.antt =====
-- A counter with a rule that doubles and one that adds, and a scheduler that tries the first.
use koika.Prelude.{ℕ, ◌+◌, ◌%◌, ◌≡◌, refl, true, none, some, List, [], ◌∷◌, ltb, if◌then◌else◌}
use koika.Prelude.Loop.{Turns}
use koika.Driver.{cycle, finish, finished, init_and_run, initial_meta, run_cycles}
use koika.Driver.Schedule.{Fired, Scheduler, scheduled, randomized}
use koika.Driver.Schedule.Reachable.{Runs, Steps, draws, init_and_run-Steps}

abbrev double : ℕ → Fired ℕ
double n = record { ok = ltb n 10; state = if ltb n 10 then n + n else n; ended = none }

abbrev increment : ℕ → Fired ℕ
increment n = record { ok = true; state = n + 1; ended = some (0, 3) }

abbrev rules : List (ℕ → Fired ℕ)
rules = double ∷ increment ∷ []

abbrev scheduler : Scheduler
scheduler = Scheduler.try_rule 0 Scheduler.done (Scheduler.cons 1 Scheduler.done)

abbrev draw : ℕ → ℕ × ℕ
draw n = (n % 2, n + 1)

init_and_run-Steps_example :
    Runs rules scheduler 20 3 (init_and_run (scheduled rules scheduler) 3 0 20)
    × ((k : ℕ) × Steps rules 3
          (draws draw k 0)
          (init_and_run (randomized rules draw) (3, 0) 0 20).state.0
        × Turns finished
            (cycle (randomized rules draw))
            20
            (record { state = (3, 0); meta = initial_meta 0 })
            k)
init_and_run-Steps_example = init_and_run-Steps rules scheduler draw 0 3 0 20

-- 3, 6, 12 and 13, where `finish` is called.
doubled : (init_and_run (scheduled rules scheduler) 3 0 20).state ≡ 13
unfolding init_and_run run_cycles cycle scheduled finish
doubled = refl
