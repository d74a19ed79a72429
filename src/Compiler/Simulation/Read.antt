-- ===== src/Compiler/Simulation/Read.antt =====
-- Reads in the code of a rule: READ0, READ1 and their FAST variants.
use koika.Prelude.{ℕ, true, List, ◌∷◌, ◌++◌, ◌≡◌, refl, inl, inr, Bool-cases}
use koika.Registers.Rule.{Sim}
use koika.Registers.Spec.{Event, Events, latest_write0, may_read0, may_read1, cons, interp}
use koika.Registers.Refine.{summary}
use koika.Registers.Refine.Access.{read0_lem, read1_lem}
use koika.Compiler.History.{RegisterKind, update_read0, update_read1}
use koika.Compiler.Action.{Histories, update_map}
use koika.Compiler.Code.{Code, is_value, run_code}
use koika.Compiler.Below.{Below, BelowMap, BelowMap-trans, read0-BelowMap}
use koika.Compiler.Annotated.{erase, Annotated→BelowMap}
use koika.Compiler.Access.{updated-Below, value_read0, value_read1, value0, value1}
use koika.Compiler.Skip.{absent}
use koika.Compiler.Reset.{Suits, reset_rule-Tracked}
use koika.Compiler.Tracked.{
  ReportsMap, BelowMap-ReportsMap, read0-ReportsMap, read1-ReportsMap, set_kind, Tracked,
  Tracked-read0, Tracked-read1_fast, Tracked-read1,
}
use koika.Compiler.Simulation.{Ends, checked, passed, IsCorrect}

module _ (registers : List ℕ) (kinds : ℕ → RegisterKind) (R : ℕ → ℕ) (sched final : Histories)
    (L : Events) (suits : Suits registers kinds sched final L) where
  pub rd0-IsCorrect :
      (h' : Histories) (r : ℕ) (k : ℕ → Code)
      → ((v : ℕ) → IsCorrect registers kinds R sched final L suits (k v))
      → IsCorrect registers kinds R sched final L suits (Code.rd0 h' r k)
  unfolding interp run_code erase
  rd0-IsCorrect h' r k others h l s w m t = elim (Bool-cases (is_value (kinds r))) [
    | inl v ↦
        let ok = value_read0 registers kinds R sched final L suits r v (below.r0 refl) in
        rw v (passed kinds R final L (may_read0 L r) _ _ ok (next ok))
    | inr nv ↦
        rw
          (
            nv,
            t.rule_rwset r nv,
            t.cycle_rwset r nv,
            read0_lem (l r ++ L r) (L r) (set_kind (kinds r)) (s.cycle_log.state r)
                (suits.port_read0 r nv (below.r0 refl)) (t.cycle_fits r nv),
          )
          (checked kinds R final L (may_read0 L r) _ _ _ next (
            reset_rule-Tracked registers kinds R sched final L l s suits
              (BelowMap-ReportsMap
                (BelowMap-trans w.0 (BelowMap-trans (read0-BelowMap h' r) covered)) m)
              t))
  ]
    where
      covered : BelowMap (update_map h' r update_read0) final
      covered = Annotated→BelowMap registers kinds final (k 0) _ (w.1 0)

      below : Below (update_read0 (h' r)) (final r)
      below = updated-Below h' r update_read0 covered

      next :
          may_read0 L r ≡ true
          → Ends kinds R final L
              (interp R L (erase (k (R r))) (cons l r Event.read0))
              (run_code registers kinds final (k (s.cycle_log.state r)) s)
      next ok = rw (value0 registers kinds R sched final L suits r t ok) (
          others (R r) _ _ s (w.1 (R r)) (read0-ReportsMap h' l r (BelowMap-ReportsMap w.0 m))
            (Tracked-read0 r t))

  pub rd1-IsCorrect :
      (h' : Histories) (r : ℕ) (k : ℕ → Code)
      → ((v : ℕ) → IsCorrect registers kinds R sched final L suits (k v))
      → IsCorrect registers kinds R sched final L suits (Code.rd1 h' r k)
  unfolding interp run_code erase
  rd1-IsCorrect h' r k others h l s w m t = elim (Bool-cases (is_value (kinds r))) [
    | inl v ↦
        let ok = value_read1 registers kinds R sched final L suits r v (below.r1 refl) in
        rw v (passed kinds R final L (may_read1 L r) _ _ ok (next s (Tracked-read1_fast r v t) ok))
    | inr nv ↦
        let port = suits.port_read1 r nv (below.r1 refl) in
        let after =
          Tracked-read1 r
            (record {
              ok = may_read1 L r;
              value = s.rule_log.state r;
              rwset = summary (set_kind (kinds r)) (Event.read1 ∷ (l r ++ L r));
            })
            refl port t in
        rw
          (
            nv,
            t.rule_rwset r nv,
            t.cycle_rwset r nv,
            read1_lem (l r ++ L r) (L r) (set_kind (kinds r)) (s.rule_log.state r) port
                (t.cycle_fits r nv),
          )
          (checked kinds R final L (may_read1 L r) _ _ _ (next _ after) (
            reset_rule-Tracked registers kinds R sched final L _ _ suits
              (BelowMap-ReportsMap covered (read1-ReportsMap h' l r marked)) after))
  ]
    where
      marked : ReportsMap h' l
      marked = BelowMap-ReportsMap w.0 m

      covered : BelowMap (update_map h' r update_read1) final
      covered = Annotated→BelowMap registers kinds final (k 0) _ (w.2 0)

      below : Below (update_read1 (h' r)) (final r)
      below = updated-Below h' r update_read1 covered

      next :
          (s' : Sim)
          → Tracked kinds R L (cons l r Event.read1) s'
          → may_read1 L r ≡ true
          → Ends kinds R final L
              (interp R L (erase (k (latest_write0 (R r) (l r ++ L r)))) (cons l r Event.read1))
              (run_code registers kinds final (k (s.rule_log.state r)) s')
      next s' t' ok =
          rw
            (value1 registers kinds R sched final L suits r t (absent _ _ (marked r).write1 w.1) ok)
            (others (latest_write0 (R r) (l r ++ L r)) _ _ s' (w.2 _)
              (read1-ReportsMap h' l r marked) t')
