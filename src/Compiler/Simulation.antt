-- ===== src/Compiler/Simulation.antt =====
-- The code of a rule does what the reference semantics says of its action.
pub mod Read
pub mod Write
pub mod Whole
use koika.Prelude.{
  ℕ, Bool, true, false, not, ◌||◌, Option, none, some, List, ◌∷◌, ◌++◌, ◌≡◌, refl, inl, inr,
  if◌then◌else◌, Bool-cases, arith,
}
use koika.Registers.Rule.{Sim}
use koika.Registers.Spec.{
  Event, Events, latest_write, latest_write0, may_read0, may_read1, may_write0, may_write1, append,
  cons, interp, no_events,
}
use koika.Registers.Refine.{summary}
use koika.Registers.Refine.Access.{
  read0_lem, read1_lem, write0_lem, write1_lem, write0-Fits, write1-Fits,
}
use koika.Compiler.History.{RegisterKind, update_read0, update_read1, update_write0, update_write1}
use koika.Compiler.Action.{Histories, update_map}
use koika.Compiler.Code.{Code, is_value, may_fail_without_revert, reset_rule, commit_rule, run_code}
use koika.Compiler.Below.{Below, BelowMap, BelowMap-trans, read0-BelowMap}
use koika.Compiler.Annotated.{erase, Annotated, Annotated→BelowMap, no_marks}
use koika.Compiler.Access.{
  updated-Below, value_read0, value_read1, value_write0, value_write1, value0, value1,
}
use koika.Compiler.Skip.{absent}
use koika.Compiler.Reset.{Suits, reset_rule-Tracked, commit_rule-Tracked, stay-Tracked}
use koika.Compiler.Tracked.{
  ReportsMap, BelowMap-ReportsMap, read0-ReportsMap, read1-ReportsMap, write0-ReportsMap,
  write1-ReportsMap, set_kind, Tracked, Tracked-read0, Tracked-read1_fast, Tracked-read1,
  Tracked-write_fast, Tracked-write,
}

-- `x`, the run of the code, ends as the reference semantics `o` says.
abbrev pub Ends :
    (ℕ → RegisterKind) → (ℕ → ℕ) → Histories → Events → Option Events → Option (Bool × Sim) → Type 0
Ends kinds R final L none x = (s : Sim) × (x ≡ some (false, s)) × Tracked kinds R L no_events s
Ends kinds R final L (some l) x =
    (s : Sim) × (x ≡ some (true, s)) × Tracked kinds R (append l L) no_events s × ReportsMap final l

module _ (kinds : ℕ → RegisterKind) (R : ℕ → ℕ) (final : Histories) (L : Events) where
  pub checked :
      (ok : Bool) (o : Option Events) (x : Option (Bool × Sim)) (s : Sim)
      → (ok ≡ true → Ends kinds R final L o x)
      → Tracked kinds R L no_events s
      → Ends kinds R final L (if ok then o else none) (if ok then x else some (false, s))
  checked true o x s h k = h refl
  checked false o x s h k = (s, refl, k)

  pub passed :
      (ok : Bool) (o : Option Events) (x : Option (Bool × Sim))
      → ok ≡ true
      → Ends kinds R final L o x
      → Ends kinds R final L (if ok then o else none) x
  passed true o x e h = h
  passed false o x e h = cc

module _ (registers : List ℕ) (kinds : ℕ → RegisterKind) (R : ℕ → ℕ) (sched final : Histories)
    (L : Events) (suits : Suits registers kinds sched final L) where
  failed :
      (h : Histories) {l : Events} {s : Sim}
      → BelowMap h final
      → (not (may_fail_without_revert registers h) || no_marks registers kinds h) ≡ true
      → ReportsMap h l
      → Tracked kinds R L l s
      → Tracked kinds R L no_events
          (if may_fail_without_revert registers h then s else reset_rule registers kinds final s)
  failed h {l} {s} b e m t = elim (Bool-cases (may_fail_without_revert registers h)) [
    | inl stay ↦ rw stay (
        stay-Tracked registers kinds R sched final L l s suits (BelowMap-ReportsMap b m) t h m stay
          (ground (arith, e, stay)))
    | inr reset ↦
        rw reset
          (reset_rule-Tracked registers kinds R sched final L l s suits (BelowMap-ReportsMap b m) t)
  ]

  -- From logs that say what the events so far say, code ends as its action should.
  abbrev pub IsCorrect : Code → Type 0
  IsCorrect c =
      (h : Histories) (l : Events) (s : Sim)
      → Annotated registers kinds final h c
      → ReportsMap h l
      → Tracked kinds R L l s
      → Ends kinds R final L (interp R L (erase c) l) (run_code registers kinds final c s)

  pub commit-IsCorrect : IsCorrect Code.commit
  unfolding interp run_code erase
  commit-IsCorrect h l s w m t = (
    commit_rule registers kinds final s,
    refl,
    commit_rule-Tracked registers kinds R sched final L l s suits (BelowMap-ReportsMap w m) t,
    BelowMap-ReportsMap w m,
  )

  pub fail-IsCorrect : (h' : Histories) → IsCorrect (Code.fail h')
  unfolding interp run_code erase
  fail-IsCorrect h' h l s w m t = (_, refl, failed h' w.1 w.2 (BelowMap-ReportsMap w.0 m) t)
