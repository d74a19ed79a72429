-- ===== src/Compiler/Simulation/Whole.antt =====
-- Whole rules: `run_code` ends as the reference semantics says.
use koika.Prelude.{ℕ, Bool, true, false, Option, none, some, List, ◌≡◌}
use koika.Registers.Rule.{Sim}
use koika.Registers.Spec.{
  Events, append, interp, no_events, has_read1, has_write0, has_write1, interp_rule,
}
use koika.Compiler.History.{RegisterKind, may, must, compute_register_kind}
use koika.Compiler.Action.{
  Histories, Action, empty_history_map, append_history_maps, rule_histories, meaning,
}
use koika.Compiler.Code.{Code, run_code, rule_code}
use koika.Compiler.Below.{BelowMap, append_l-Below, append_r-Below}
use koika.Compiler.Annotated.{erase-rule_code, declared, accepted, rule_code-Annotated}
use koika.Compiler.Reset.{Suits}
use koika.Compiler.Tracked.{ReportsMap, Tracked, Below-Reports}
use koika.Compiler.Simulation.Read.{rd0-IsCorrect, rd1-IsCorrect}
use koika.Compiler.Simulation.Write.{wr0-IsCorrect, wr1-IsCorrect}
use koika.Compiler.Simulation.{Ends, IsCorrect, commit-IsCorrect, fail-IsCorrect}
use mathlib.Core.Path.{subst}
use koika.Compiler.Declared.{rule_histories-undeclared}
use koika.Compiler.Kinds.{
  kind_by-read0, kind_by-read1, kind_by-write1, kind_by-value, append-Reports,
}

module _ (registers : List ℕ) (kinds : ℕ → RegisterKind) (R : ℕ → ℕ) (sched final : Histories)
    (L : Events) (suits : Suits registers kinds sched final L) where
  -- The code of a rule ends as its action should.
  run_code-interp : (c : Code) → IsCorrect registers kinds R sched final L suits c
  run_code-interp Code.commit = commit-IsCorrect registers kinds R sched final L suits
  run_code-interp (Code.fail h') = fail-IsCorrect registers kinds R sched final L suits h'
  run_code-interp (Code.rd0 h' r k) =
      rd0-IsCorrect registers kinds R sched final L suits h' r k (λ v. run_code-interp (k v))
  run_code-interp (Code.rd1 h' r k) =
      rd1-IsCorrect registers kinds R sched final L suits h' r k (λ v. run_code-interp (k v))
  run_code-interp (Code.wr0 h' r v k) =
      wr0-IsCorrect registers kinds R sched final L suits h' r v k (run_code-interp k)
  run_code-interp (Code.wr1 h' r v k) =
      wr1-IsCorrect registers kinds R sched final L suits h' r v k (run_code-interp k)

-- How a rule ends, by the log of the reference semantics.
abbrev verdict : Events → Option Events → Bool × Events
verdict L o = elim o [ none ↦ (false, L) | some log ↦ (true, append log L) ]

abbrev pub EndsRule :
    (ℕ → RegisterKind) → (ℕ → ℕ) → Histories → Bool × Events → Option (Bool × Sim) → Type 0
EndsRule kinds R H v x =
    (s : Sim) × (x ≡ some (v.0, s)) × Tracked kinds R v.1 no_events s × ReportsMap H v.1

Ends→EndsRule :
    (kinds : ℕ → RegisterKind) (R : ℕ → ℕ) (H F : Histories) (L : Events) (o : Option Events)
    (x : Option (Bool × Sim))
    → ReportsMap H L
    → Ends kinds R F L o x
    → EndsRule kinds R (append_history_maps H F) (verdict L o) x
Ends→EndsRule kinds R H F L none x m (s, ran, t) =
    (s, ran, t, λ q. Below-Reports (append_l-Below (H q) (F q)) (m q))
Ends→EndsRule kinds R H F L (some l) x m (s, ran, t, own) =
    (s, ran, t, λ q. append-Reports (H q) (F q) (L q) (l q) (m q) (own q))

pub nothing-ReportsMap : (h : Histories) → ReportsMap h no_events
unfolding has_read1 has_write0 has_write1
nothing-ReportsMap h q = record { read1 = λ e. cc; write0 = λ e. cc; write1 = λ e. cc }

module _ (registers : List ℕ) (whole : Histories) (R : ℕ → ℕ) where
  abbrev pub kinds_of : ℕ → RegisterKind
  kinds_of q = compute_register_kind (whole q)

  rule-Suits :
      (a : Action) (H : Histories) (L : Events)
      → declared registers a ≡ true
      → BelowMap (append_history_maps H (rule_histories a)) whole
      → ReportsMap H L
      → Suits registers kinds_of H (rule_histories a) L
  rule-Suits a H L d b m = record {
    undeclared = λ q out. rule_histories-undeclared registers q out a d;
    reports = m;
    clean = λ q v. (b q).cf (kind_by-value _ (may (whole q).hr0) (may (whole q).hr1) _ v);
    port_read0 = λ q nv e.
        kind_by-read0 (must (whole q).hcf) _ (may (whole q).hr1) (may (whole q).hw1) nv
          ((b q).r0 ((append_r-Below (H q) (rule_histories a q)).r0 e));
    port_read1 = λ q nv e.
        kind_by-read1 (must (whole q).hcf) (may (whole q).hr0) _ (may (whole q).hw1) nv
          ((b q).r1 ((append_r-Below (H q) (rule_histories a q)).r1 e));
    port_write1 = λ q nv e.
        kind_by-write1 (must (whole q).hcf) (may (whole q).hr0) (may (whole q).hr1) _ nv
          ((b q).w1 ((append_r-Below (H q) (rule_histories a q)).w1 e));
  }

  pub rule_code-interp_rule :
      (a : Action) (H : Histories) (L : Events) (s : Sim)
      → declared registers a ≡ true
      → accepted registers kinds_of a empty_history_map ≡ true
      → BelowMap (append_history_maps H (rule_histories a)) whole
      → ReportsMap H L
      → Tracked kinds_of R L no_events s
      → EndsRule kinds_of R
          (append_history_maps H (rule_histories a))
          (interp_rule R L (meaning a))
          (run_code registers kinds_of (rule_histories a) (rule_code a) s)
  unfolding interp_rule
  rule_code-interp_rule a H L s d e b m t =
      Ends→EndsRule kinds_of R H (rule_histories a) L (interp R L (meaning a) no_events) _ m (
        subst
          (λ rule.
            Ends kinds_of R (rule_histories a) L (interp R L rule no_events)
              (run_code registers kinds_of (rule_histories a) (rule_code a) s))
          (erase-rule_code a)
          (run_code-interp registers kinds_of R H (rule_histories a) L (rule-Suits a H L d b m)
            (rule_code a) empty_history_map no_events s (rule_code-Annotated registers kinds_of a e)
            (nothing-ReportsMap empty_history_map) t))
