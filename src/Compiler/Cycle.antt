-- ===== src/Compiler/Cycle.antt =====
-- A cycle of the compiled code does what the reference semantics says of its schedule.
use koika.Prelude.{
  ℕ, zero, suc, Bool, true, false, ◌&&◌, Option, some, List, [], ◌≡◌, refl, if◌then◌else◌,
}
use koika.Registers.Rule.{Sim}
use koika.Registers.Spec.{
  Events, has_read1, has_write0, has_write1, latest_write, interp_rule, no_events, commit_update,
}
use koika.Registers.Refine.Cycle.{no_events-Fits}
use koika.Registers.Refine.{summary}
use koika.Compiler.History.{RegisterKind}
use koika.Compiler.Action.{
  Histories, empty_history_map, append_history_maps, rule_histories, meaning,
}
use koika.Compiler.Code.{is_value, rwset_of_kind}
use koika.Compiler.Below.{Below-refl, BelowMap, BelowMap-trans, join_l-BelowMap, join_r-BelowMap}
use koika.Compiler.Annotated.{both, declared, accepted}
use koika.Compiler.Kinds.{schedule_histories-Below}
use koika.Compiler.Order.{ordered}
use koika.Compiler.Schedule.{
  Scheduler, schedule_histories, register_kinds, run_scheduler, interp_scheduler, clear_rwsets,
  cycle, run, interp_cycles,
}
use koika.Compiler.Simulation.Whole.{kinds_of, rule_code-interp_rule, nothing-ReportsMap}
use koika.Compiler.Tracked.{ReportsMap, set_kind, Tracked}

module _ (registers : List ℕ) (kinds : ℕ → RegisterKind) where
  -- Each rule of a schedule is accepted, keeps the order of operands, and uses only declared registers.
  unfoldable pub accepted_schedule : Scheduler → Bool
  accepted_schedule Scheduler.done = true
  accepted_schedule (Scheduler.cons a s) =
      (declared registers a && ordered a)
      && accepted registers kinds a empty_history_map
      && accepted_schedule s
  accepted_schedule (Scheduler.try a s t) =
      (declared registers a && ordered a)
      && accepted registers kinds a empty_history_map
      && accepted_schedule s
      && accepted_schedule t

module _ (registers : List ℕ) (whole : Histories) (R : ℕ → ℕ) where
  abbrev EndsSchedule : List Bool × Events → Option (List Bool × Sim) → Type 0
  EndsSchedule v x =
      (s : Sim) × (x ≡ some (v.0, s)) × Tracked (kinds_of registers whole R) R v.1 no_events s

  either-EndsSchedule :
      (ok : Bool) (v w : List Bool × Events) (x y : Option (List Bool × Sim))
      → EndsSchedule v x
      → EndsSchedule w y
      → EndsSchedule (if ok then v else w) (if ok then x else y)
  either-EndsSchedule true v w x y h k = h
  either-EndsSchedule false v w x y h k = k

  run_scheduler-interp_scheduler :
      (sch : Scheduler) (H : Histories) (L : Events) (s : Sim)
      → accepted_schedule registers (kinds_of registers whole R) sch ≡ true
      → BelowMap (schedule_histories H sch) whole
      → ReportsMap H L
      → Tracked (kinds_of registers whole R) R L no_events s
      → EndsSchedule
          (interp_scheduler R L sch)
          (run_scheduler registers (kinds_of registers whole R) sch s)
  unfolding run_scheduler interp_scheduler schedule_histories accepted_schedule
  run_scheduler-interp_scheduler Scheduler.done H L s e b m t = (s, refl, t)
  run_scheduler-interp_scheduler (Scheduler.cons a sch) H L s e b m t =
      let (da, es) = both _ (accepted_schedule registers (kinds_of registers whole R) sch) e in
      let (fine, ea) = both (declared registers a && ordered a) _ da in
      let (d, o) = both (declared registers a) (ordered a) fine in
      let (s₁, first, t₁, m₁) =
        rule_code-interp_rule registers whole R a H L s d ea
          (BelowMap-trans (schedule_histories-Below sch (append_history_maps H (rule_histories a)))
            b)
          m t in
      let (s₂, others, t₂) =
        run_scheduler-interp_scheduler sch (append_history_maps H (rule_histories a)) _ s₁ es b m₁
          t₁ in
      (s₂, rw (first, others) refl, t₂)
  run_scheduler-interp_scheduler (Scheduler.try a sch other) H L s e b m t =
      let (das, eo) = both _ (accepted_schedule registers (kinds_of registers whole R) other) e in
      let (da, es) = both _ (accepted_schedule registers (kinds_of registers whole R) sch) das in
      let (fine, ea) = both (declared registers a && ordered a) _ da in
      let (d, o) = both (declared registers a) (ordered a) fine in
      let H₁ = append_history_maps H (rule_histories a) in
      let b₁ =
        BelowMap-trans (join_l-BelowMap (schedule_histories H₁ sch) (schedule_histories H₁ other))
          b in
      let b₂ =
        BelowMap-trans (join_r-BelowMap (schedule_histories H₁ sch) (schedule_histories H₁ other))
          b in
      let (s₁, first, t₁, m₁) =
        rule_code-interp_rule registers whole R a H L s d ea
          (BelowMap-trans (schedule_histories-Below sch H₁) b₁) m t in
      let (s₂, others, t₂) =
        either-EndsSchedule (interp_rule R L (meaning a)).0 _ _ _ _
          (run_scheduler-interp_scheduler sch H₁ _ s₁ es b₁ m₁ t₁)
          (run_scheduler-interp_scheduler other H₁ _ s₁ eo b₂ m₁ t₁) in
      (s₂, rw (first, others) refl, t₂)

-- Both logs hold the values `R`.
abbrev pub StatesAre : (ℕ → ℕ) → Sim → Type 0
StatesAre R s = (r : ℕ) → (s.cycle_log.state r ≡ R r) × (s.rule_log.state r ≡ R r)

rwset_of_kind-summary :
    (k : RegisterKind) → is_value k ≡ false → rwset_of_kind k ≡ summary (set_kind k) []
unfolding has_read1 has_write0 has_write1
rwset_of_kind-summary RegisterKind.value v = refl
rwset_of_kind-summary RegisterKind.wire v = refl
rwset_of_kind-summary RegisterKind.register v = refl
rwset_of_kind-summary RegisterKind.ehr v = refl

pub clear_rwsets-Tracked :
    (kinds : ℕ → RegisterKind) (R : ℕ → ℕ) (s : Sim)
    → StatesAre R s
    → Tracked kinds R no_events no_events (clear_rwsets kinds s)
unfolding latest_write
clear_rwsets-Tracked kinds R s e = record {
  cycle_rwset = λ r v. rwset_of_kind-summary (kinds r) v;
  cycle_state = λ r. (e r).0;
  cycle_fits = λ r v. no_events-Fits (set_kind (kinds r));
  rule_rwset = λ r v. rwset_of_kind-summary (kinds r) v;
  rule_state = λ r. (e r).1;
  rule_fits = λ r v. no_events-Fits (set_kind (kinds r));
}

module _ (registers : List ℕ) (sch : Scheduler) where
  -- Under the conditions of `accepted_schedule`, a cycle of the compiled code from logs that hold
  -- the values `R` runs to its end. Its rules commit and fail as the reference semantics says of
  -- the schedule, and both logs then hold what committing the reference log stores.
  pub cycle-commit_update :
      (R : ℕ → ℕ) (s : Sim)
      → accepted_schedule registers (register_kinds sch) sch ≡ true
      → StatesAre R s
      → (s' : Sim) × (cycle registers sch s ≡ some ((interp_scheduler R no_events sch).0, s'))
        × StatesAre (commit_update R (interp_scheduler R no_events sch).1) s'
  unfolding commit_update
  cycle-commit_update R s e states =
      let (s', ran, t) =
        run_scheduler-interp_scheduler registers (schedule_histories empty_history_map sch) R sch
          empty_history_map no_events (clear_rwsets (register_kinds sch) s) e
          (λ q. Below-refl (schedule_histories empty_history_map sch q))
          (nothing-ReportsMap empty_history_map)
          (clear_rwsets-Tracked (register_kinds sch) R s states) in
      (s', ran, λ r. (t.cycle_state r, t.rule_state r))

  -- For a design in which every rule uses only declared registers, has no second operand that
  -- assigns a variable or mentions the one that the result goes to, reads no register at port 1
  -- after a possible write at port 1, and fails without a reset only where it cannot have marked
  -- a read-write set: from logs that hold the values R, running the compiled code for any number
  -- of cycles ends, its rules commit and fail as the reference semantics says of the schedule,
  -- and both logs then hold what as many cycles of the reference semantics give.
  pub run-interp_cycles :
      (n : ℕ) (R : ℕ → ℕ) (s : Sim)
      → accepted_schedule registers (register_kinds sch) sch ≡ true
      → StatesAre R s
      → (s' : Sim) × (run registers sch n s ≡ some ((interp_cycles sch n R).0, s'))
        × StatesAre (interp_cycles sch n R).1 s'
  unfolding run interp_cycles
  run-interp_cycles zero R s e states = (s, refl, states)
  run-interp_cycles (suc n) R s e states =
      let (s₁, first, states₁) = cycle-commit_update R s e states in
      let (s₂, others, states₂) =
        run-interp_cycles n (commit_update R (interp_scheduler R no_events sch).1) s₁ e states₁ in
      (s₂, rw (first, others) refl, states₂)
