-- ===== src/Compiler/Examples.antt =====
-- A small design, compiled: what its registers and its rules become, and instances of the theorems.
use koika.Prelude.{
  ℕ, suc, Bool, true, false, some, ◌>>=◌, Option, ◌==◌, if◌then◌else◌, List, [], ◌∷◌, ◌≡◌, refl,
  All,
}
use koika.Registers.Rule.{Sim}
use koika.Registers.Spec.{
  no_events, commit_update, interp, interp_rule, has_read1, has_write0, has_write1, latest_write0,
  latest_write,
}
use koika.Compiler.History.{RegisterKind}
use koika.Compiler.Action.{empty_history_map, Action, annotate, rule_of, rule_histories}
use koika.Registers.Dynamic.Outside.{mem}
use koika.Compiler.Annotated.{declared, accepted, no_marks}
use koika.Compiler.Code.{
  run_code, code_of, rule_code, commit_rule, write_fast, filter_registers, commit_reset,
  copy_registers, may_fail_without_revert, rwset_of_kind,
}
use koika.Compiler.Schedule.{
  run_scheduler, Scheduler, schedule_histories, register_kinds, rules_of, interp_scheduler,
  interp_cycles, cycle, run,
}
use koika.Compiler.Cycle.{accepted_schedule, StatesAre, run-interp_cycles}
use koika.Registers.Refine.{WellPorted}
use koika.Compiler.Tracked.{set_kind}
use koika.Compiler.Ports.{rules_of-WellPorted}
use koika.Compiler.Random.{run_randomized, interp_each, Calls, run_randomized-interp_each}
use koika.Compiler.Warning.{find_conflicts, find_read1s_after_write1s, is_silent, silent_values}
use koika.Compiler.Warning.Complete.{fails_clean, find_read1s-accepted}
use koika.Compiler.Atomic.{fired}
use koika.Compiler.Atomic.Cycle.{cycle-one_at_a_time}
use koika.Compiler.Order.{assigns, mentions, second_mentions, ordered}
use koika.Compiler.Stale.{is_expr, value_of, read_then_write}
use koika.Compiler.Stale.Cycle.{cycle-interp_scheduler_stale}
use koika.Compiler.Load.{load_log, run_code-load_log}

-- Register 0 counts, register 1 is a queue, register 2 holds what has been taken from it.
abbrev three : List ℕ
three = 0 ∷ 1 ∷ 2 ∷ []

abbrev enqueue : Action
enqueue =
    Action.seq (Action.cond (Action.read0 0) (Action.const 0) Action.fail)
      (Action.write0 1 (Action.read0 0))

abbrev dequeue : Action
dequeue = Action.bind 0 (Action.read1 1) (
    Action.seq (Action.write1 1 (Action.const 0))
      (Action.cond (Action.var 0) (Action.write0 2 (Action.var 0)) Action.fail))

abbrev count : Action
count = Action.write0 0 (Action.unop suc (Action.read0 0))

abbrev rest : Scheduler
rest = Scheduler.cons enqueue (Scheduler.cons count Scheduler.done)

abbrev queue : Scheduler
queue = Scheduler.try dequeue rest rest

kinds_test :
    (register_kinds queue 0 ≡ RegisterKind.value)
    × (register_kinds queue 1 ≡ RegisterKind.ehr)
    × (register_kinds queue 2 ≡ RegisterKind.value)
unfolding schedule_histories annotate
kinds_test = (refl, refl, refl)

abbrev all_zero : ℕ → ℕ
all_zero r = 0

abbrev start : Sim
start = record {
  cycle_log = record { state = all_zero; rwset = λ r. rwset_of_kind (register_kinds queue r) };
  rule_log = record { state = all_zero; rwset = λ r. rwset_of_kind (register_kinds queue r) };
}

cycles_test :
    (interp_cycles queue 3 all_zero).0
    ≡ (false ∷ false ∷ true ∷ []) ∷ (false ∷ true ∷ true ∷ []) ∷ (true ∷ false ∷ true ∷ []) ∷ []
unfolding interp_cycles interp_scheduler interp_rule interp rule_of commit_update schedule_histories
    has_write0 has_write1 latest_write0 has_read1 latest_write
cycles_test = refl

run-interp_cycles_example :
    (s' : Sim) × (run three queue 3 start ≡ some ((interp_cycles queue 3 all_zero).0, s'))
    × StatesAre (interp_cycles queue 3 all_zero).1 s'
unfolding accepted_schedule declared ordered assigns second_mentions mentions mem accepted
    may_fail_without_revert annotate no_marks schedule_histories
run-interp_cycles_example = run-interp_cycles three queue 3 all_zero start refl (λ r. (refl, refl))

rules_of-WellPorted_example :
    All (WellPorted (λ r. set_kind (register_kinds queue r)) (λ r. false)) (rules_of queue)
unfolding accepted_schedule declared ordered assigns second_mentions mentions mem accepted
    may_fail_without_revert annotate no_marks schedule_histories
rules_of-WellPorted_example = rules_of-WellPorted three queue refl

cycle-one_at_a_time_example :
    (oks fired_oks : List Bool) × (s' t' : Sim) × (cycle three queue start ≡ some (oks, s'))
    × (run_randomized three queue (fired queue oks) start ≡ some (fired_oks, t'))
    × All (λ ok. ok ≡ true) fired_oks
    × ((r : ℕ) → t'.cycle_log.state r ≡ s'.cycle_log.state r)
unfolding accepted_schedule declared ordered assigns second_mentions mentions mem accepted
    may_fail_without_revert annotate no_marks schedule_histories
cycle-one_at_a_time_example =
    cycle-one_at_a_time three queue all_zero start refl (λ r. (refl, refl))

run_randomized-interp_each_example :
    (s' : Sim) × (run_randomized three queue (count ∷ dequeue ∷ enqueue ∷ []) start
      ≡ some ((interp_each (count ∷ dequeue ∷ enqueue ∷ []) all_zero).0, s'))
    × StatesAre (interp_each (count ∷ dequeue ∷ enqueue ∷ []) all_zero).1 s'
unfolding accepted_schedule declared ordered assigns second_mentions mentions mem accepted
    may_fail_without_revert annotate no_marks schedule_histories
run_randomized-interp_each_example =
    run_randomized-interp_each three queue (count ∷ dequeue ∷ enqueue ∷ []) all_zero start refl
      (
        Calls.try_yes (Calls.cons_later Calls.cons_first),
        (Calls.try_first, (Calls.try_yes Calls.cons_first, tt)),
      )
      (λ r. (refl, refl))

find_read1s-accepted_example :
    accepted three (register_kinds queue) dequeue empty_history_map ≡ true
unfolding declared mem annotate no_marks schedule_histories may_fail_without_revert silent_values
    is_silent find_conflicts filter_registers fails_clean
find_read1s-accepted_example =
    find_read1s-accepted three (register_kinds queue) dequeue refl refl refl refl

-- The value that register 0 gets comes from a read at port 1 that follows a write.
abbrev hidden : Action
hidden = Action.write0 0 (Action.seq (Action.write1 1 (Action.const 5)) (Action.read1 1))

abbrev hidden_schedule : Scheduler
hidden_schedule = Scheduler.cons hidden Scheduler.done

hidden_test :
    (find_read1s_after_write1s three hidden ≡ [])
    × ((cycle three hidden_schedule start >>= λ x. some (x.1.cycle_log.state 0)) ≡ some 5)
    × (commit_update all_zero (interp_scheduler all_zero no_events hidden_schedule).1 0 ≡ 0)
unfolding find_conflicts filter_registers run_scheduler run_code code_of annotate schedule_histories
    commit_reset copy_registers commit_update interp_scheduler interp_rule interp rule_of has_read1
    has_write0 has_write1 latest_write0 latest_write
hidden_test = (refl, refl, refl)

-- Register 1 is read; the rule fails on a value that is not 5.
abbrev not_five : Action
not_five = Action.binop (λ v w. if v == w then 0 else 1) (Action.var 0) (Action.const 5)

abbrev not_five_then_write : Scheduler
not_five_then_write = read_then_write 1 0 not_five (Action.write1 2 (Action.var 0)) (Action.const 7)

cycle-interp_scheduler_stale_example :
    ((s' : Sim) × (cycle three not_five_then_write start ≡ some (false ∷ false ∷ [], s')))
    × ((interp_scheduler all_zero no_events not_five_then_write).0 ≡ false ∷ true ∷ [])
unfolding is_expr value_of
cycle-interp_scheduler_stale_example =
    cycle-interp_scheduler_stale three 1 0 not_five (Action.write1 2 (Action.var 0))
      (Action.const 7) all_zero start refl refl refl (λ r. (refl, refl))

-- Values loaded into a log, and a rule with a large footprint that does not write register 5.
abbrev six : List ℕ
six = 0 ∷ 1 ∷ 2 ∷ 3 ∷ 4 ∷ 5 ∷ []

abbrev five_writes : Action
five_writes = Action.seq (Action.write0 0 (Action.const 1)) (
    Action.seq (Action.write0 1 (Action.const 1)) (
      Action.seq (Action.write0 2 (Action.const 1))
        (Action.seq (Action.write0 3 (Action.const 1)) (Action.write0 4 (Action.const 1)))))

abbrev saved : ℕ → ℕ
saved r = 99

abbrev run_loaded : List ℕ → Action → Option (Bool × Sim)
run_loaded registers a =
    run_code registers (λ r. RegisterKind.value) (rule_histories a) (rule_code a)
      (load_log saved start)

abbrev after_five : Sim
after_five =
    commit_rule six (λ r. RegisterKind.value) (rule_histories five_writes)
      (write_fast
        (write_fast (write_fast (write_fast (write_fast (load_log saved start) 0 1) 1 1) 2 1) 3 1) 4
        1)

loaded_test :
    ((run_loaded six five_writes >>= λ x. some (x.1.cycle_log.state 5)) ≡ some 0)
    × ((run_loaded three count >>= λ x. some (x.1.cycle_log.state 2)) ≡ some 99)
unfolding run_code code_of annotate commit_reset copy_registers filter_registers load_log
loaded_test = (refl, refl)

run_code-load_log_example : (after_five.cycle_log.state 5 ≡ 0) × (after_five.rule_log.state 5 ≡ 0)
unfolding run_code code_of annotate commit_reset copy_registers filter_registers load_log
run_code-load_log_example =
    run_code-load_log six (λ r. RegisterKind.value) (rule_histories five_writes) 5
      (rule_code five_writes) saved start after_five (refl, (refl, (refl, (refl, (refl, tt))))) refl
