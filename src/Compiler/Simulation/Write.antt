-- ===== src/Compiler/Simulation/Write.antt =====
-- Writes in the code of a rule: WRITE0, WRITE1 and their FAST variants.
use koika.Prelude.{ℕ, List, ◌∷◌, ◌++◌, refl, inl, inr, Bool-cases}
use koika.Registers.Rule.{Sim}
use koika.Registers.Spec.{Event, Events, latest_write, may_write0, may_write1, cons, interp}
use koika.Registers.Refine.{summary}
use koika.Registers.Refine.Access.{write0_lem, write1_lem, write0-Fits, write1-Fits}
use koika.Compiler.History.{RegisterKind, update_write0, update_write1}
use koika.Compiler.Action.{Histories, update_map}
use koika.Compiler.Code.{Code, is_value, run_code}
use koika.Compiler.Below.{Below, BelowMap}
use koika.Compiler.Annotated.{erase, Annotated→BelowMap}
use koika.Compiler.Access.{updated-Below, value_write0, value_write1}
use koika.Compiler.Reset.{Suits, reset_rule-Tracked}
use koika.Compiler.Tracked.{
  ReportsMap, BelowMap-ReportsMap, write0-ReportsMap, write1-ReportsMap, set_kind, Tracked,
  Tracked-write_fast, Tracked-write,
}
use koika.Compiler.Simulation.{Ends, checked, passed, IsCorrect}

module _ (registers : List ℕ) (kinds : ℕ → RegisterKind) (R : ℕ → ℕ) (sched final : Histories)
    (L : Events) (suits : Suits registers kinds sched final L) where
  pub wr0-IsCorrect :
      (h' : Histories) (r v : ℕ) (k : Code)
      → IsCorrect registers kinds R sched final L suits k
      → IsCorrect registers kinds R sched final L suits (Code.wr0 h' r v k)
  unfolding interp run_code erase latest_write
  wr0-IsCorrect h' r v k others h l s w m t = elim (Bool-cases (is_value (kinds r))) [
    | inl is ↦ rw is (
        passed kinds R final L (may_write0 (l r ++ L r)) _ _
          (value_write0 registers kinds R sched final L suits r (h' r) (l r) is
            (updated-Below h' r update_write0 covered) (marked r))
          (next _ (Tracked-write_fast r (Event.write0 v) v refl is t)))
    | inr nv ↦
        let after =
          Tracked-write r (Event.write0 v)
            (record {
              ok = may_write0 (l r ++ L r);
              value = v;
              rwset = summary (set_kind (kinds r)) (Event.write0 v ∷ (l r ++ L r));
            })
            refl refl (write0-Fits (l r ++ L r) (set_kind (kinds r)) v (t.rule_fits r nv)) t in
        rw
          (
            nv,
            t.rule_rwset r nv,
            write0_lem (l r ++ L r) (L r) (set_kind (kinds r)) v (t.rule_fits r nv),
          )
          (checked kinds R final L (may_write0 (l r ++ L r)) _ _ _ (λ ok. next _ after)
            (reset_rule-Tracked registers kinds R sched final L _ _ suits
              (BelowMap-ReportsMap covered (write0-ReportsMap h' l r v marked)) after))
  ]
    where
      marked : ReportsMap h' l
      marked = BelowMap-ReportsMap w.0 m

      covered : BelowMap (update_map h' r update_write0) final
      covered = Annotated→BelowMap registers kinds final k _ w.1

      next :
          (s' : Sim)
          → Tracked kinds R L (cons l r (Event.write0 v)) s'
          → Ends kinds R final L
              (interp R L (erase k) (cons l r (Event.write0 v)))
              (run_code registers kinds final k s')
      next s' t' = others _ _ s' w.1 (write0-ReportsMap h' l r v marked) t'

  pub wr1-IsCorrect :
      (h' : Histories) (r v : ℕ) (k : Code)
      → IsCorrect registers kinds R sched final L suits k
      → IsCorrect registers kinds R sched final L suits (Code.wr1 h' r v k)
  unfolding interp run_code erase latest_write
  wr1-IsCorrect h' r v k others h l s w m t = elim (Bool-cases (is_value (kinds r))) [
    | inl is ↦ rw is (
        passed kinds R final L (may_write1 (l r ++ L r)) _ _
          (value_write1 registers kinds R sched final L suits r (h' r) (l r) is below (marked r))
          (next _ (Tracked-write_fast r (Event.write1 v) v refl is t)))
    | inr nv ↦
        let port = suits.port_write1 r nv (below.w1 refl) in
        let after =
          Tracked-write r (Event.write1 v)
            (record {
              ok = may_write1 (l r ++ L r);
              value = v;
              rwset = summary (set_kind (kinds r)) (Event.write1 v ∷ (l r ++ L r));
            })
            refl refl (write1-Fits (l r ++ L r) (set_kind (kinds r)) v port) t in
        rw (nv, t.rule_rwset r nv, write1_lem (l r ++ L r) (L r) (set_kind (kinds r)) v port)
          (checked kinds R final L (may_write1 (l r ++ L r)) _ _ _ (λ ok. next _ after)
            (reset_rule-Tracked registers kinds R sched final L _ _ suits
              (BelowMap-ReportsMap covered (write1-ReportsMap h' l r v marked)) after))
  ]
    where
      marked : ReportsMap h' l
      marked = BelowMap-ReportsMap w.0 m

      covered : BelowMap (update_map h' r update_write1) final
      covered = Annotated→BelowMap registers kinds final k _ w.1

      below : Below (update_write1 (h' r)) (final r)
      below = updated-Below h' r update_write1 covered

      next :
          (s' : Sim)
          → Tracked kinds R L (cons l r (Event.write1 v)) s'
          → Ends kinds R final L
              (interp R L (erase k) (cons l r (Event.write1 v)))
              (run_code registers kinds final k s')
      next s' t' = others _ _ s' w.1 (write1-ReportsMap h' l r v marked) t'
