-- ===== src/Compiler/Stale/Cycle.antt =====
-- The mark that a failure without a reset leaves, in a cycle of the compiled code.
use koika.Prelude.{
  ℕ, ◌==◌, true, false, some, List, [], ◌∷◌, ◌≡◌, refl, sym, ap, ◌∙◌, ◌⊎◌, inl, inr, cases_eq,
  some_inj, arith,
}
use mathlib.Core.Path.{subst}
use koika.Registers.{Rwset, Access, set_r1, read1, write0, may_read1, may_write0, set_w0}
use koika.Registers.Rule.{Sim, update, store, mark}
use koika.Registers.Spec.{
  interp, interp_rule, no_events, has_read1, has_write0, has_write1, latest_write0,
}
use koika.Compiler.History.{RegisterKind, update_read1}
use koika.Compiler.Action.{
  Action, Histories, annotate, empty_history_map, update_map, rule_of, rule_histories,
}
use koika.Compiler.Code.{
  code_of, rule_code, reset_rule, rwset_of_kind, may_stay, may_fail_without_revert, run_code,
}
use koika.Compiler.Cycle.{StatesAre}
use koika.Compiler.Schedule.{register_kinds, clear_rwsets, cycle, run_scheduler, interp_scheduler}
use koika.Compiler.Stale.{
  is_expr, value_of, annotate-is_expr, code_of-is_expr, rule_of-is_expr, guarded, read_then_write,
  read_then_write-kind,
}

self : (q : ℕ) → (q == q) ≡ true
self q = ground arith

may_stay-read1 : (q r : ℕ) → may_stay (update_map empty_history_map q update_read1 r) ≡ true
may_stay-read1 q r = elim (cases_eq r q) [ inl (e, t) ↦ rw t refl | inr t ↦ rw t refl ]

stays :
    (registers : List ℕ) (q : ℕ)
    → may_fail_without_revert registers (update_map empty_history_map q update_read1) ≡ true
unfolding may_fail_without_revert
stays [] q = refl
stays (r ∷ rs) q = rw (may_stay-read1 q r, stays rs q) refl

module _ (registers : List ℕ) (kinds : ℕ → RegisterKind) (q : ℕ) where
  abbrev left : Sim → Rwset → Access
  left s rwset = record { ok = true; value = s.rule_log.state q; rwset = rwset }

  -- The first rule fails and leaves its mark.
  guarded-fails :
      (x : ℕ) (c body : Action) (final : Histories) (s : Sim)
      → is_expr c ≡ true
      → (value_of c (update (λ y. 0) x (s.rule_log.state q)) == 0) ≡ false
      → (kinds q ≡ RegisterKind.wire) ⊎ (kinds q ≡ RegisterKind.ehr)
      → (s₁ : Sim) × (run_code registers kinds final
            (rule_code (guarded q x c body))
            (clear_rwsets kinds s)
          ≡ some (false, s₁))
        × (set_r1 (rwset_of_kind (kinds q)) ≡ some (s₁.rule_log.rwset q))
  unfolding run_code code_of read1 may_read1 set_r1 mark annotate
  guarded-fails x c body final s ec test (inl k) = (
    mark (clear_rwsets kinds s) q (left s (Rwset.wire true false)),
    rw
        (
          k,
          code_of-is_expr c (update_map empty_history_map q update_read1)
              (update (λ y. 0) x (s.rule_log.state q)) _ ec,
          test,
          annotate-is_expr c (update_map empty_history_map q update_read1) ec,
          stays registers q,
        )
        refl,
    rw (k, self q) refl,
  )
  guarded-fails x c body final s ec test (inr k) = (
    mark (clear_rwsets kinds s) q (left s (Rwset.ehr true false false)),
    rw
        (
          k,
          code_of-is_expr c (update_map empty_history_map q update_read1)
              (update (λ y. 0) x (s.rule_log.state q)) _ ec,
          test,
          annotate-is_expr c (update_map empty_history_map q update_read1) ec,
          stays registers q,
        )
        refl,
    rw (k, self q) refl,
  )

  abbrev refused : ℕ → Rwset → Access
  refused v rwset = record { ok = false; value = v; rwset = rwset }

  -- The second rule fails on the mark.
  write0-fails :
      (e : Action) (final : Histories) (s : Sim)
      → is_expr e ≡ true
      → (kinds q ≡ RegisterKind.wire) ⊎ (kinds q ≡ RegisterKind.ehr)
      → set_r1 (rwset_of_kind (kinds q)) ≡ some (s.rule_log.rwset q)
      → (s₁ : Sim) × (run_code registers kinds final (rule_code (Action.write0 q e)) s
          ≡ some (false, s₁))
  unfolding run_code code_of write0 may_write0 set_w0 set_r1
  write0-fails e final s ee (inl k) m = (
    reset_rule registers kinds final
        (store s q (refused (value_of e (λ y. 0)) (Rwset.wire true true))),
    rw (code_of-is_expr e empty_history_map (λ y. 0) _ ee, k, sym (marked m k)) refl,
  )
    where
      marked :
          set_r1 (rwset_of_kind (kinds q)) ≡ some (s.rule_log.rwset q)
          → kinds q ≡ RegisterKind.wire
          → Rwset.wire true false ≡ s.rule_log.rwset q
      marked m k = some_inj (sym (ap (λ i. set_r1 (rwset_of_kind i)) k) ∙ m)
  write0-fails e final s ee (inr k) m = (
    reset_rule registers kinds final
        (store s q (refused (value_of e (λ y. 0)) (Rwset.ehr true true false))),
    rw (code_of-is_expr e empty_history_map (λ y. 0) _ ee, k, sym (marked m k)) refl,
  )
    where
      marked :
          set_r1 (rwset_of_kind (kinds q)) ≡ some (s.rule_log.rwset q)
          → kinds q ≡ RegisterKind.ehr
          → Rwset.ehr true false false ≡ s.rule_log.rwset q
      marked m k = some_inj (sym (ap (λ i. set_r1 (rwset_of_kind i)) k) ∙ m)

reference :
    (q x : ℕ) (c body e : Action) (R : ℕ → ℕ)
    → is_expr c ≡ true
    → is_expr e ≡ true
    → (value_of c (update (λ y. 0) x (R q)) == 0) ≡ false
    → (interp_scheduler R no_events (read_then_write q x c body e)).0 ≡ false ∷ true ∷ []
unfolding interp_scheduler interp_rule interp rule_of has_read1 has_write0 has_write1 latest_write0
reference q x c body e R ec ee test =
    rw (rule_of-is_expr c _ _ ec, rule_of-is_expr e _ _ ee, test) refl

compiled :
    (registers : List ℕ) (q x : ℕ) (c body e : Action) (R : ℕ → ℕ) (s : Sim)
    → is_expr c ≡ true
    → is_expr e ≡ true
    → (value_of c (update (λ y. 0) x (R q)) == 0) ≡ false
    → StatesAre R s
    → (s' : Sim) × (cycle registers (read_then_write q x c body e) s
        ≡ some (false ∷ false ∷ [], s'))
unfolding run_scheduler
compiled registers q x c body e R s ec ee test states =
    let kind = read_then_write-kind q x c body e ec in
    let (s₁, first, m) =
      guarded-fails registers (register_kinds (read_then_write q x c body e)) q x c body
        (rule_histories (guarded q x c body)) s ec
        (subst (λ v. (value_of c (update (λ y. 0) x v) == 0) ≡ false) (sym ((states q).1)) test)
        kind in
    let (s₂, second) =
      write0-fails registers (register_kinds (read_then_write q x c body e)) q e
        (rule_histories (Action.write0 q e)) s₁ ee kind m in
    (s₂, rw (first, second) refl)

-- A rule reads a register at port 1, tests what it has read by an expression, and fails if the
-- test holds, whatever it does otherwise; the next rule writes the value of an expression to the
-- register at port 0. Where the test holds of the register's value, both rules fail in a cycle of
-- the compiled code that starts from logs with these values; in the reference semantics the second
-- commits.
pub cycle-interp_scheduler_stale :
    (registers : List ℕ) (q x : ℕ) (c body e : Action) (R : ℕ → ℕ) (s : Sim)
    → is_expr c ≡ true
    → is_expr e ≡ true
    → (value_of c (update (λ y. 0) x (R q)) == 0) ≡ false
    → StatesAre R s
    → ((s' : Sim) × (cycle registers (read_then_write q x c body e) s
          ≡ some (false ∷ false ∷ [], s')))
      × ((interp_scheduler R no_events (read_then_write q x c body e)).0 ≡ false ∷ true ∷ [])
cycle-interp_scheduler_stale registers q x c body e R s ec ee test states =
    (compiled registers q x c body e R s ec ee test states, reference q x c body e R ec ee test)
