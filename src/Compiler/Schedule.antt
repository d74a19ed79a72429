-- ===== src/Compiler/Schedule.antt =====
-- Schedules: `compute_scheduler_register_histories` and `classify_registers` of
-- coq/TypedSyntaxFunctions.v, `p_scheduler` and `p_cycle_function` of ocaml/backends/cpp.ml, and the
-- reference semantics of schedules (`interp_scheduler` of coq/TypedSemantics.v).
use koika.Prelude.{ℕ, zero, suc, Bool, Option, some, List, [], ◌∷◌, ◌++◌, if◌then◌else◌, ◌>>=◌}
use koika.Registers.Rule.{Rule, Sim}
use koika.Registers.Spec.{Events, interp_rule, no_events, commit_update}
use koika.Compiler.History.{RegisterKind, compute_register_kind}
use koika.Compiler.Action.{
  Action, Histories, empty_history_map, join_history_maps, append_history_maps, rule_histories,
  meaning,
}
use koika.Compiler.Code.{rule_code, run_code, rwset_of_kind}

pub data Scheduler : Type 0 where
  done : Scheduler
  cons : Action → Scheduler → Scheduler
  try : Action → Scheduler → Scheduler → Scheduler

-- The rules that a schedule calls, on any way through it.
unfoldable pub rules_of : Scheduler → List Rule
rules_of Scheduler.done = []
rules_of (Scheduler.cons a s) = meaning a ∷ rules_of s
rules_of (Scheduler.try a s t) = meaning a ∷ (rules_of s ++ rules_of t)

unfoldable pub schedule_histories : Histories → Scheduler → Histories
schedule_histories L Scheduler.done = L
schedule_histories L (Scheduler.cons a s) =
    schedule_histories (append_history_maps L (rule_histories a)) s
schedule_histories L (Scheduler.try a s t) =
    join_history_maps (schedule_histories (append_history_maps L (rule_histories a)) s)
      (schedule_histories (append_history_maps L (rule_histories a)) t)

abbrev pub register_kinds : Scheduler → ℕ → RegisterKind
register_kinds s r = compute_register_kind (schedule_histories empty_history_map s r)

module _ (registers : List ℕ) (kinds : ℕ → RegisterKind) where
  -- What the rules of a schedule return, in the order of the calls.
  unfoldable pub run_scheduler : Scheduler → Sim → Option (List Bool × Sim)
  run_scheduler Scheduler.done s = some ([], s)
  run_scheduler (Scheduler.cons a others) s = do
    (ok, s₁) ← run_code registers kinds (rule_histories a) (rule_code a) s
    (rest, s₂) ← run_scheduler others s₁
    some (ok ∷ rest, s₂)
  run_scheduler (Scheduler.try a others otherwise) s = do
    (ok, s₁) ← run_code registers kinds (rule_histories a) (rule_code a) s
    let yes_branch = run_scheduler others s₁
    let no_branch = run_scheduler otherwise s₁
    (rest, s₂) ← if ok then yes_branch else no_branch
    some (ok ∷ rest, s₂)

-- `rwset_t{}` in both logs.
abbrev pub clear_rwsets : (ℕ → RegisterKind) → Sim → Sim
clear_rwsets kinds s = record {
  cycle_log = record s.cycle_log { rwset = λ r. rwset_of_kind (kinds r) };
  rule_log = record s.rule_log { rwset = λ r. rwset_of_kind (kinds r) };
}

-- `cycle()`
abbrev pub cycle : List ℕ → Scheduler → Sim → Option (List Bool × Sim)
cycle registers sch s =
    run_scheduler registers (register_kinds sch) sch (clear_rwsets (register_kinds sch) s)

-- `run(ncycles)`, for a design that does not call `finish`; the result lists what the rules return in
-- each cycle.
unfoldable pub run : List ℕ → Scheduler → ℕ → Sim → Option (List (List Bool) × Sim)
run registers sch zero s = some ([], s)
run registers sch (suc n) s = do
  (oks, s₁) ← cycle registers sch s
  (rest, s₂) ← run registers sch n s₁
  some (oks ∷ rest, s₂)

unfoldable pub interp_scheduler : (ℕ → ℕ) → Events → Scheduler → List Bool × Events
interp_scheduler R log Scheduler.done = ([], log)
interp_scheduler R log (Scheduler.cons a s) =
    let (ok, log₁) = interp_rule R log (meaning a) in
    let (rest, log₂) = interp_scheduler R log₁ s in (ok ∷ rest, log₂)
interp_scheduler R log (Scheduler.try a s t) =
    let (ok, log₁) = interp_rule R log (meaning a) in
    let yes_branch = interp_scheduler R log₁ s in
    let no_branch = interp_scheduler R log₁ t in
    let (rest, log₂) = if ok then yes_branch else no_branch in (ok ∷ rest, log₂)

-- `interp_cycle`, as often as wanted.
unfoldable pub interp_cycles : Scheduler → ℕ → (ℕ → ℕ) → List (List Bool) × (ℕ → ℕ)
interp_cycles sch zero R = ([], R)
interp_cycles sch (suc n) R =
    let (oks, log) = interp_scheduler R no_events sch in
    let (rest, R') = interp_cycles sch n (commit_update R log) in (oks ∷ rest, R')
