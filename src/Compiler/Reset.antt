-- ===== src/Compiler/Reset.antt =====
-- The logs after a rule of the compiled code, whichever way it ends: RESET, COMMIT and FAIL_FAST copy
-- enough.
use koika.Prelude.{
  ℕ, true, false, not, ◌&&◌, ◌||◌, List, [], ◌∷◌, ◌≡◌, refl, sym, ap, ◌∙◌, inl, inr, Bool-cases,
  cases_eq, arith,
}
use koika.Registers.Rule.{Sim}
use koika.Registers.Spec.{Events, has_read1, has_write0, has_write1, append, no_events}
use koika.Registers.Refine.{has_port_read0, has_port_read1, has_port_write1}
use koika.Registers.Dynamic.Outside.{mem}
use koika.Compiler.History.{History, may, must, empty_history, append_histories, RegisterKind}
use koika.Compiler.Action.{Histories}
use koika.Compiler.Code.{
  is_value, needs_rwset, needs_rwdata, may_stay, may_fail_without_revert, reset_rule, commit_rule,
}
use koika.Compiler.Annotated.{both, no_marks}
use koika.Compiler.Footprint.{commit_reset-state, commit_reset-rwset}
use koika.Compiler.Tracked.{ReportsMap, set_kind, Tracked}
use koika.Compiler.Skip.{absent, latest_write-skip, summary-skip}

-- The tests over all registers, at one of them.
may_stay-mem :
    (rs : List ℕ) (h : Histories) (q : ℕ)
    → mem q rs ≡ true
    → may_fail_without_revert rs h ≡ true
    → may_stay (h q) ≡ true
unfolding mem may_fail_without_revert
may_stay-mem [] h q m e = cc
may_stay-mem (r ∷ rs) h q m e =
    let (here, others) = both (may_stay (h r)) (may_fail_without_revert rs h) e in
    elim (cases_eq q r) [
      | inl (same, t) ↦ rw same here
      | inr t ↦ may_stay-mem rs h q (sym (rw t refl) ∙ m) others
    ]

no_marks-mem :
    (rs : List ℕ) (kinds : ℕ → RegisterKind) (h : Histories) (q : ℕ)
    → mem q rs ≡ true
    → no_marks rs kinds h ≡ true
    → (is_value (kinds q) || not (may (h q).hr1)) ≡ true
unfolding mem no_marks
no_marks-mem [] kinds h q m e = cc
no_marks-mem (r ∷ rs) kinds h q m e =
    let (here, others) = both (is_value (kinds r) || not (may (h r).hr1)) (no_marks rs kinds h) e in
    elim (cases_eq q r) [
      | inl (same, t) ↦ rw same here
      | inr t ↦ no_marks-mem rs kinds h q (sym (rw t refl) ∙ m) others
    ]

-- What the analysis of a schedule gives for one of its rules: `sched` are the histories before the
-- rule, `histories` those of the rule itself.
pub record Suits (registers : List ℕ) (kinds : ℕ → RegisterKind) (sched histories : Histories)
    (L : Events) : Type 0 where
  pub undeclared : (q : ℕ) → mem q registers ≡ false → histories q ≡ empty_history
  pub reports : ReportsMap sched L
  pub clean :
      (q : ℕ)
      → is_value (kinds q) ≡ true
      → must (append_histories (sched q) (histories q)).hcf ≡ true
  pub port_read0 :
      (q : ℕ)
      → is_value (kinds q) ≡ false
      → may (histories q).hr0 ≡ true
      → has_port_read0 (set_kind (kinds q)) ≡ true
  pub port_read1 :
      (q : ℕ)
      → is_value (kinds q) ≡ false
      → may (histories q).hr1 ≡ true
      → has_port_read1 (set_kind (kinds q)) ≡ true
  pub port_write1 :
      (q : ℕ)
      → is_value (kinds q) ≡ false
      → may (histories q).hw1 ≡ true
      → has_port_write1 (set_kind (kinds q)) ≡ true

module _ (registers : List ℕ) (kinds : ℕ → RegisterKind) (R : ℕ → ℕ) (sched histories : Histories)
    (L l : Events) (s : Sim) (suits : Suits registers kinds sched histories L)
    (reports : ReportsMap histories l) (t : Tracked kinds R L l s) where
  silent :
      (q : ℕ)
      → mem q registers ≡ false
      → (has_read1 (l q) ≡ false) × (has_write0 (l q) ≡ false) × (has_write1 (l q) ≡ false)
  silent q out =
      let e = suits.undeclared q out in
      (
        absent _ _ (reports q).read1 (ap (λ (x : History). may x.hr1) e),
        absent _ _ (reports q).write0 (ap (λ (x : History). may x.hw0) e),
        absent _ _ (reports q).write1 (ap (λ (x : History). may x.hw1) e),
      )

  same_state :
      (q : ℕ)
      → (mem q registers && needs_rwdata registers kinds histories q) ≡ false
      → s.rule_log.state q ≡ s.cycle_log.state q
  same_state q h =
      let (no0, no1) = no_writes in
      t.rule_state q ∙ latest_write-skip (L q) (R q) (l q) no0 no1 ∙ sym (t.cycle_state q)
    where
      no_writes : (has_write0 (l q) ≡ false) × (has_write1 (l q) ≡ false)
      no_writes = elim (Bool-cases (mem q registers)) [
        | inl declared ↦ (
          absent _ _ (reports q).write0 (ground (arith, h, declared)),
          absent _ _ (reports q).write1 (ground (arith, h, declared)),
        )
        | inr out ↦ ((silent q out).1, (silent q out).2)
      ]

  same_rwset :
      (q : ℕ)
      → is_value (kinds q) ≡ false
      → (mem q registers && needs_rwset registers kinds histories q) ≡ false
      → s.rule_log.rwset q ≡ s.cycle_log.rwset q
  same_rwset q nv h =
      let (no_r, no0, no1) = no_accesses in
      t.rule_rwset q nv
      ∙ summary-skip (L q) (set_kind (kinds q)) (l q) no_r no0 no1
      ∙ sym (t.cycle_rwset q nv)
    where
      no_accesses :
          (has_read1 (l q) ≡ false) × (has_write0 (l q) ≡ false) × (has_write1 (l q) ≡ false)
      no_accesses = elim (Bool-cases (mem q registers)) [
        | inl declared ↦ (
          absent _ _ (reports q).read1 (ground (arith, h, nv, declared)),
          absent _ _ (reports q).write0 (ground (arith, h, nv, declared)),
          absent _ _ (reports q).write1 (ground (arith, h, nv, declared)),
        )
        | inr out ↦ silent q out
      ]

  pub reset_rule-Tracked : Tracked kinds R L no_events (reset_rule registers kinds histories s)
  reset_rule-Tracked = record {
    cycle_rwset = t.cycle_rwset;
    cycle_state = t.cycle_state;
    cycle_fits = t.cycle_fits;
    rule_rwset = λ q nv.
        commit_reset-rwset registers kinds histories s.cycle_log s.rule_log q (same_rwset q nv)
        ∙ t.cycle_rwset q nv;
    rule_state = λ q.
        commit_reset-state registers kinds histories s.cycle_log s.rule_log q (same_state q)
        ∙ t.cycle_state q;
    rule_fits = t.cycle_fits;
  }

  pub commit_rule-Tracked :
      Tracked kinds R (append l L) no_events (commit_rule registers kinds histories s)
  commit_rule-Tracked = record {
    cycle_rwset = λ q nv.
        commit_reset-rwset registers kinds histories s.rule_log s.cycle_log q
          (λ h. sym (same_rwset q nv h))
        ∙ t.rule_rwset q nv;
    cycle_state = λ q.
        commit_reset-state registers kinds histories s.rule_log s.cycle_log q
          (λ h. sym (same_state q h))
        ∙ t.rule_state q;
    cycle_fits = t.rule_fits;
    rule_rwset = t.rule_rwset;
    rule_state = t.rule_state;
    rule_fits = t.rule_fits;
  }

  -- A failure that resets nothing.
  pub stay-Tracked :
      (h : Histories)
      → ReportsMap h l
      → may_fail_without_revert registers h ≡ true
      → no_marks registers kinds h ≡ true
      → Tracked kinds R L no_events s
  stay-Tracked h marks may_stay_here unmarked = record {
    cycle_rwset = t.cycle_rwset;
    cycle_state = t.cycle_state;
    cycle_fits = t.cycle_fits;
    rule_rwset = λ q nv.
        let (no_r, no0, no1) = no_accesses q nv in
        t.rule_rwset q nv ∙ summary-skip (L q) (set_kind (kinds q)) (l q) no_r no0 no1;
    rule_state = λ q.
        let (no0, no1) = no_writes q in
        t.rule_state q ∙ latest_write-skip (L q) (R q) (l q) no0 no1;
    rule_fits = t.cycle_fits;
  }
    where
      no_writes : (q : ℕ) → (has_write0 (l q) ≡ false) × (has_write1 (l q) ≡ false)
      no_writes q = elim (Bool-cases (mem q registers)) [
        | inl declared ↦
            let stays = may_stay-mem registers h q declared may_stay_here in
            (
              absent _ _ (marks q).write0 (ground (arith, stays)),
              absent _ _ (marks q).write1 (ground (arith, stays)),
            )
        | inr out ↦ ((silent q out).1, (silent q out).2)
      ]

      no_accesses :
          (q : ℕ)
          → is_value (kinds q) ≡ false
          → (has_read1 (l q) ≡ false) × (has_write0 (l q) ≡ false) × (has_write1 (l q) ≡ false)
      no_accesses q nv = elim (Bool-cases (mem q registers)) [
        | inl declared ↦
            let none_read = no_marks-mem registers kinds h q declared unmarked in
            (
              absent _ _ (marks q).read1 (ground (arith, none_read, nv)),
              (no_writes q).0,
              (no_writes q).1,
            )
        | inr out ↦ silent q out
      ]
