-- ===== src/Compiler/Random.antt =====
-- Randomized runs: `cycle_randomized`, which ocaml/backends/cpp.ml prints, runs one rule per cycle.
use koika.Prelude.{◌&&◌, ℕ, Bool, true, Option, some, List, [], ◌∷◌, ◌≡◌, refl, All, ◌>>=◌}
use koika.Registers.Rule.{Sim}
use koika.Registers.Spec.{interp_rule, no_events, commit_update}
use koika.Compiler.Action.{
  Action, Histories, empty_history_map, append_history_maps, rule_histories, meaning,
}
use koika.Compiler.Annotated.{both, declared, accepted}
use koika.Compiler.Below.{Below-refl, BelowMap, BelowMap-trans, join_l-BelowMap, join_r-BelowMap}
use koika.Compiler.Code.{rule_code, run_code}
use koika.Compiler.Cycle.{accepted_schedule, StatesAre, clear_rwsets-Tracked}
use koika.Compiler.Kinds.{schedule_histories-Below}
use koika.Compiler.Order.{ordered}
use koika.Compiler.Schedule.{Scheduler, schedule_histories, register_kinds, clear_rwsets}
use koika.Compiler.Simulation.Whole.{kinds_of, rule_code-interp_rule, nothing-ReportsMap}

module _ (registers : List ℕ) (sch : Scheduler) where
  abbrev pub cycle_randomized : Action → Sim → Option (Bool × Sim)
  cycle_randomized a s =
      run_code registers (register_kinds sch) (rule_histories a) (rule_code a)
        (clear_rwsets (register_kinds sch) s)

  -- `run_randomized(ncycles)`, by the rules that the generator chooses.
  unfoldable pub run_randomized : List Action → Sim → Option (List Bool × Sim)
  run_randomized [] s = some ([], s)
  run_randomized (a ∷ choices) s = do
    (ok, s₁) ← cycle_randomized a s
    (rest, s₂) ← run_randomized choices s₁
    some (ok ∷ rest, s₂)

-- A cycle of the reference semantics for each rule.
unfoldable pub interp_each : List Action → (ℕ → ℕ) → List Bool × (ℕ → ℕ)
interp_each [] R = ([], R)
interp_each (a ∷ choices) R =
    let (ok, log) = interp_rule R no_events (meaning a) in
    let (rest, R') = interp_each choices (commit_update R log) in (ok ∷ rest, R')

-- A schedule calls a rule on some way through it.
pub data Calls (a : Action) : Scheduler → Type 0 where
  cons_first : {s : Scheduler} → Calls a (Scheduler.cons a s)
  cons_later : {b : Action} {s : Scheduler} → Calls a s → Calls a (Scheduler.cons b s)
  try_first : {s t : Scheduler} → Calls a (Scheduler.try a s t)
  try_yes : {b : Action} {s t : Scheduler} → Calls a s → Calls a (Scheduler.try b s t)
  try_no : {b : Action} {s t : Scheduler} → Calls a t → Calls a (Scheduler.try b s t)

module _ (registers : List ℕ) (whole : Histories) (R : ℕ → ℕ) where
  -- What is known of a rule at its place in a schedule.
  abbrev Known : Action → Type 0
  Known a =
      (H : Histories) × (declared registers a ≡ true)
      × (accepted registers (kinds_of registers whole R) a empty_history_map ≡ true)
      × BelowMap (append_history_maps H (rule_histories a)) whole

  Calls→Known :
      {a : Action} {s : Scheduler} (H : Histories)
      → Calls a s
      → accepted_schedule registers (kinds_of registers whole R) s ≡ true
      → BelowMap (schedule_histories H s) whole
      → Known a
  unfolding schedule_histories accepted_schedule
  Calls→Known {a} H (Calls.cons_first {s = s}) e b =
      let (da, es) = both _ (accepted_schedule registers (kinds_of registers whole R) s) e in
      let (fine, ea) = both (declared registers a && ordered a) _ da in
      let (d, o) = both (declared registers a) (ordered a) fine in
      (
        H,
        d,
        ea,
        BelowMap-trans (schedule_histories-Below s (append_history_maps H (rule_histories a))) b,
      )
  Calls→Known H (Calls.cons_later {b = c} {s = s} p) e b =
      let (da, es) = both _ (accepted_schedule registers (kinds_of registers whole R) s) e in
      Calls→Known (append_history_maps H (rule_histories c)) p es b
  Calls→Known {a} H (Calls.try_first {s = s} {t = t}) e b =
      let (das, eo) = both _ (accepted_schedule registers (kinds_of registers whole R) t) e in
      let (da, es) = both _ (accepted_schedule registers (kinds_of registers whole R) s) das in
      let (fine, ea) = both (declared registers a && ordered a) _ da in
      let (d, o) = both (declared registers a) (ordered a) fine in
      let H₁ = append_history_maps H (rule_histories a) in
      (
        H,
        d,
        ea,
        BelowMap-trans (schedule_histories-Below s H₁) (
            BelowMap-trans (join_l-BelowMap (schedule_histories H₁ s) (schedule_histories H₁ t)) b),
      )
  Calls→Known H (Calls.try_yes {b = c} {s = s} {t = t} p) e b =
      let (das, eo) = both _ (accepted_schedule registers (kinds_of registers whole R) t) e in
      let (da, es) = both _ (accepted_schedule registers (kinds_of registers whole R) s) das in
      let H₁ = append_history_maps H (rule_histories c) in
      Calls→Known H₁ p es
        (BelowMap-trans (join_l-BelowMap (schedule_histories H₁ s) (schedule_histories H₁ t)) b)
  Calls→Known H (Calls.try_no {b = c} {s = s} {t = t} p) e b =
      let (das, eo) = both _ (accepted_schedule registers (kinds_of registers whole R) t) e in
      let H₁ = append_history_maps H (rule_histories c) in
      Calls→Known H₁ p eo
        (BelowMap-trans (join_r-BelowMap (schedule_histories H₁ s) (schedule_histories H₁ t)) b)

module _ (registers : List ℕ) (sch : Scheduler) where
  cycle_randomized-interp_rule :
      (a : Action) (R : ℕ → ℕ) (s : Sim)
      → accepted_schedule registers (register_kinds sch) sch ≡ true
      → Calls a sch
      → StatesAre R s
      → (s' : Sim) × (cycle_randomized registers sch a s
          ≡ some ((interp_rule R no_events (meaning a)).0, s'))
        × StatesAre (commit_update R (interp_rule R no_events (meaning a)).1) s'
  unfolding commit_update
  cycle_randomized-interp_rule a R s e calls states =
      let whole = schedule_histories empty_history_map sch in
      let (H, d, ea, b) =
        Calls→Known registers whole R empty_history_map calls e (λ q. Below-refl (whole q)) in
      let (s', ran, t, m) =
        rule_code-interp_rule registers whole R a H no_events (clear_rwsets (register_kinds sch) s)
          d ea b (nothing-ReportsMap H) (clear_rwsets-Tracked (register_kinds sch) R s states) in
      (s', ran, λ r. (t.cycle_state r, t.rule_state r))

  -- For a design in which every rule uses only declared registers, has no second operand that
  -- assigns a variable or mentions the one that the result goes to, reads no register at port 1
  -- after a possible write at port 1, and fails without a reset only where it cannot have marked
  -- a read-write set, and any choice of rules that the schedule calls on some way through it:
  -- from logs that hold the values R, a randomized run by these rules ends, each commits or fails
  -- as the reference semantics says of a cycle with that rule alone, and both logs then hold what
  -- such cycles leave.
  pub run_randomized-interp_each :
      (choices : List Action) (R : ℕ → ℕ) (s : Sim)
      → accepted_schedule registers (register_kinds sch) sch ≡ true
      → All (λ a. Calls a sch) choices
      → StatesAre R s
      → (s' : Sim) × (run_randomized registers sch choices s ≡ some ((interp_each choices R).0, s'))
        × StatesAre (interp_each choices R).1 s'
  unfolding run_randomized interp_each
  run_randomized-interp_each [] R s e calls states = (s, refl, states)
  run_randomized-interp_each (a ∷ choices) R s e calls states =
      let (s₁, first, states₁) = cycle_randomized-interp_rule a R s e calls.0 states in
      let (s₂, others, states₂) =
        run_randomized-interp_each choices (commit_update R (interp_rule R no_events (meaning a)).1)
          s₁ e calls.1 states₁ in
      (s₂, rw (first, others) refl, states₂)
