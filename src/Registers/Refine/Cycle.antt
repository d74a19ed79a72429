-- ===== src/Registers/Refine/Cycle.antt =====
-- The refinement for rules and for whole cycles.
use koika.Prelude.{ℕ, Bool, true, false, Option, none, some, List, [], ◌∷◌, ◌≡◌, refl, ap, ◌∙◌, All}
use koika.Registers.{Rwset, reset}
use koika.Registers.Rule.{Rule, Log, Sim, Generated, run, run_all, fresh}
use koika.Registers.Spec.{
  Events, has_read1, has_write1, latest_write, append, interp, interp_rule, interp_all, no_events,
  commit_update,
}
use koika.Registers.Refine.{Kind, WellPorted, summary, Fits, Holds, Tracks}
use koika.Registers.Refine.Simulation.{Outcome, interp-run}

-- Before a rule has done anything.
Holds→Tracks :
    {kind : ℕ → Kind} {R : ℕ → ℕ} {L : Events} {s : Sim}
    → Holds kind R L s
    → Tracks kind (λ r. false) R L no_events s
unfolding has_write1
Holds→Tracks {kind} {R} {L} {s} h = record {
  cycle_rwset = h.rwset;
  cycle_state = h.state;
  cycle_fits = h.fits;
  rule_rwset = λ r. ap (λ (log : Log). log.rwset r) h.agrees ∙ h.rwset r;
  rule_state = λ r. ap (λ (log : Log). log.state r) h.agrees ∙ h.state r;
  rule_fits = h.fits;
  unwritten = λ r e. refl;
}

pub no_events-Fits : (k : Kind) → Fits k []
unfolding has_read1 has_write1
no_events-Fits Kind.reg = (refl, refl)
no_events-Fits Kind.wire = refl
no_events-Fits Kind.ehr = tt

abbrev verdict : Events → Option Events → Bool × Events
verdict L o = elim o [ none ↦ (false, L) | some log ↦ (true, append log L) ]

Outcome-verdict :
    (kind : ℕ → Kind) (R : ℕ → ℕ) (L : Events) (o : Option Events) (x : Option (Bool × Sim))
    → Outcome kind R L o x
    → (s : Sim) × (x ≡ some ((verdict L o).0, s)) × Holds kind R (verdict L o).1 s
Outcome-verdict kind R L none x h = h
Outcome-verdict kind R L (some log) x h = h

module _ (g : Generated) (kind : ℕ → Kind) (R : ℕ → ℕ) where
  -- A rule commits or fails as the reference semantics says, and the logs go on saying what its
  -- events say.
  run-interp_rule :
      (L : Events) (rule : Rule) (s : Sim)
      → WellPorted kind (λ r. false) rule
      → Holds kind R L s
      → (s' : Sim) × (run g rule s ≡ some ((interp_rule R L rule).0, s'))
        × Holds kind R (interp_rule R L rule).1 s'
  unfolding interp_rule
  run-interp_rule L rule s w h =
      Outcome-verdict kind R L (interp R L rule no_events) (run g rule s)
        (interp-run g kind R L rule w (Holds→Tracks h))

  run_all-interp_all :
      (L : Events) (rules : List Rule) (s : Sim)
      → All (WellPorted kind (λ r. false)) rules
      → Holds kind R L s
      → (s' : Sim) × (run_all g rules s ≡ some ((interp_all R L rules).0, s'))
        × Holds kind R (interp_all R L rules).1 s'
  unfolding run_all interp_all
  run_all-interp_all L [] s w h = (s, refl, h)
  run_all-interp_all L (rule ∷ rules) s w h =
      let (s₁, first, h₁) = run-interp_rule L rule s w.0 h in
      let (s₂, others, h₂) = run_all-interp_all (interp_rule R L rule).1 rules s₁ w.1 h₁ in
      (s₂, rw (first, others), h₂)

  -- A cycle of rules that use the ports their registers have, and that read no register at port 1
  -- after writing it, starts from the values `R` with cleared sets. It runs to its end, commits the
  -- rules that the reference semantics commits, and leaves each register with what committing the
  -- reference log stores.
  pub run_all-commit_update :
      (rules : List Rule) (rwset : ℕ → Rwset)
      → ((r : ℕ) → reset (rwset r) ≡ summary (kind r) [])
      → All (WellPorted kind (λ r. false)) rules
      → (s : Sim) × (run_all g rules (fresh R rwset) ≡ some ((interp_all R no_events rules).0, s))
        × ((r : ℕ) → s.cycle_log.state r ≡ commit_update R (interp_all R no_events rules).1 r)
  unfolding commit_update
  run_all-commit_update rules rwset kinds w =
      let (s, ran, h) = run_all-interp_all no_events rules (fresh R rwset) w start in
      (s, ran, h.state)
    where
      start : Holds kind R no_events (fresh R rwset)
      start =
          unfold fresh latest_write has_read1 has_write1 in
          record {
            agrees = refl;
            rwset = kinds;
            state = λ r. refl;
            fits = λ r. no_events-Fits (kind r);
          }
