-- ===== src/Registers/Refine/Simulation.antt =====
-- A rule run on read-write sets does what the reference semantics says, and so does a cycle.
use mathlib.Core.Path.{subst}
use koika.Prelude.{
  ℕ, Bool, true, false, Option, none, some, ◌∷◌, ◌++◌, ◌≡◌, inl, inr, refl, sym, arith, ◌∙◌,
  if◌then◌else◌, cases_eq,
}
use koika.Registers.{Access}
use koika.Registers.Rule.{Rule, Sim, update, store, mark, Generated, run}
use koika.Registers.Spec.{
  Event, Events, has_write1, latest_write, latest_write0, may_read0, may_read1, may_write0,
  may_write1, append, cons, interp,
}
use koika.Registers.Refine.{
  Kind, has_port_read1, has_port_write1, WellPorted, summary, Fits, Holds, Tracks,
}
use koika.Registers.Refine.Access.{
  read0_lem, read1_lem, write0_lem, write1_lem, latest_of_no_write1, latest_of_no_write,
  summary-read0, has_write1-append, read0-Fits, read1-Fits, write0-Fits, write1-Fits,
}

-- A family with one entry replaced has a property at every place if the new entry has it.
pub at_update {ℓ κ} :
    {A : Type ℓ} (P : ℕ → A → Type κ) {f : ℕ → A} (r : ℕ) {a : A}
    → ((j : ℕ) → P j (f j))
    → P r a
    → (j : ℕ) → P j (update f r a j)
at_update P {f} r {a} h k j = elim (cases_eq j r) [
  | inl (e, same) ↦ rw same (subst (λ i. P i a) (sym e) k)
  | inr other ↦ rw other (h j)
]

pub at_update₂ {ℓ κ μ} :
    {A : Type ℓ} {B : Type κ} (P : ℕ → A → B → Type μ) {f : ℕ → A} {h : ℕ → B} (r : ℕ) {a : A}
    {b : B}
    → ((j : ℕ) → P j (f j) (h j))
    → P r a b
    → (j : ℕ) → P j (update f r a j) (update h r b j)
at_update₂ P {f} {h} r {a} {b} p k j = elim (cases_eq j r) [
  | inl (e, same) ↦ rw same (subst (λ i. P i a b) (sym e) k)
  | inr other ↦ rw other (p j)
]

module _ (kind : ℕ → Kind) (R : ℕ → ℕ) (L : Events) where
  -- The access of register `r` that leaves the event `e`.
  abbrev access : Events → ℕ → Event → Bool → ℕ → Access
  access l r e ok v = record { ok = ok; value = v; rwset = summary (kind r) (e ∷ (l r ++ L r)) }

  Tracks-read0 :
      {written : ℕ → Bool} {l : Events} {s : Sim} (r : ℕ)
      → Tracks kind written R L l s
      → Tracks kind written R L (cons l r Event.read0) s
  unfolding latest_write has_write1
  Tracks-read0 {written} {l} {s} r t = record {
    cycle_rwset = t.cycle_rwset;
    cycle_state = t.cycle_state;
    cycle_fits = t.cycle_fits;
    rule_rwset =
        at_update (λ j es. s.rule_log.rwset j ≡ summary (kind j) (es ++ L j)) r t.rule_rwset
          (t.rule_rwset r ∙ summary-read0 (kind r) (l r ++ L r));
    rule_state =
        at_update (λ j es. s.rule_log.state j ≡ latest_write (R j) (es ++ L j)) r t.rule_state
          (t.rule_state r);
    rule_fits =
        at_update (λ j es. Fits (kind j) (es ++ L j)) r t.rule_fits
          (read0-Fits (l r ++ L r) (kind r) (t.rule_fits r));
    unwritten =
        at_update (λ j es. written j ≡ false → has_write1 es ≡ false) r t.unwritten (t.unwritten r);
  }

  Tracks-read1 :
      {written : ℕ → Bool} {l : Events} {s : Sim} (r v : ℕ) (ok : Bool)
      → has_port_read1 (kind r) ≡ true
      → Tracks kind written R L l s
      → Tracks kind written R L (cons l r Event.read1) (mark s r (access l r Event.read1 ok v))
  unfolding latest_write has_write1 mark
  Tracks-read1 {written} {l} {s} r v ok p t = record {
    cycle_rwset = t.cycle_rwset;
    cycle_state = t.cycle_state;
    cycle_fits = t.cycle_fits;
    rule_rwset = at_update₂ (λ j set es. set ≡ summary (kind j) (es ++ L j)) r t.rule_rwset refl;
    rule_state =
        at_update (λ j es. s.rule_log.state j ≡ latest_write (R j) (es ++ L j)) r t.rule_state
          (t.rule_state r);
    rule_fits =
        at_update (λ j es. Fits (kind j) (es ++ L j)) r t.rule_fits
          (read1-Fits (l r ++ L r) (kind r) p (t.rule_fits r));
    unwritten =
        at_update (λ j es. written j ≡ false → has_write1 es ≡ false) r t.unwritten (t.unwritten r);
  }

  Tracks-write0 :
      {written : ℕ → Bool} {l : Events} {s : Sim} (r v : ℕ) (ok : Bool)
      → Tracks kind written R L l s
      → Tracks kind written R L
          (cons l r (Event.write0 v))
          (store s r (access l r (Event.write0 v) ok v))
  unfolding latest_write has_write1 store
  Tracks-write0 {written} {l} {s} r v ok t = record {
    cycle_rwset = t.cycle_rwset;
    cycle_state = t.cycle_state;
    cycle_fits = t.cycle_fits;
    rule_rwset = at_update₂ (λ j set es. set ≡ summary (kind j) (es ++ L j)) r t.rule_rwset refl;
    rule_state = at_update₂ (λ j w es. w ≡ latest_write (R j) (es ++ L j)) r t.rule_state refl;
    rule_fits =
        at_update (λ j es. Fits (kind j) (es ++ L j)) r t.rule_fits
          (write0-Fits (l r ++ L r) (kind r) v (t.rule_fits r));
    unwritten =
        at_update (λ j es. written j ≡ false → has_write1 es ≡ false) r t.unwritten (t.unwritten r);
  }

  Tracks-write1 :
      {written : ℕ → Bool} {l : Events} {s : Sim} (r v : ℕ) (ok : Bool)
      → has_port_write1 (kind r) ≡ true
      → Tracks kind written R L l s
      → Tracks kind
          (update written r true)
          R
          L
          (cons l r (Event.write1 v))
          (store s r (access l r (Event.write1 v) ok v))
  unfolding latest_write has_write1 store
  Tracks-write1 {written} {l} {s} r v ok p t = record {
    cycle_rwset = t.cycle_rwset;
    cycle_state = t.cycle_state;
    cycle_fits = t.cycle_fits;
    rule_rwset = at_update₂ (λ j set es. set ≡ summary (kind j) (es ++ L j)) r t.rule_rwset refl;
    rule_state = at_update₂ (λ j w es. w ≡ latest_write (R j) (es ++ L j)) r t.rule_state refl;
    rule_fits =
        at_update (λ j es. Fits (kind j) (es ++ L j)) r t.rule_fits
          (write1-Fits (l r ++ L r) (kind r) v p);
    unwritten = at_update₂ (λ j w es. w ≡ false → has_write1 es ≡ false) r t.unwritten (λ h. cc);
  }

-- `x`, the run of a rule, ends as the reference semantics `o` says.
abbrev pub Outcome : (ℕ → Kind) → (ℕ → ℕ) → Events → Option Events → Option (Bool × Sim) → Type 0
Outcome kind R L none x = (s : Sim) × (x ≡ some (false, s)) × Holds kind R L s
Outcome kind R L (some l) x = (s : Sim) × (x ≡ some (true, s)) × Holds kind R (append l L) s

module _ (g : Generated) (kind : ℕ → Kind) (R : ℕ → ℕ) (L : Events) where
  aborted :
      {written : ℕ → Bool} {l : Events} {s : Sim}
      → Tracks kind written R L l s
      → Holds kind R L (g.reset_rule s)
  aborted {s = s} t =
      rw (g.reset_copies s) (record {
        agrees = refl;
        rwset = t.cycle_rwset;
        state = t.cycle_state;
        fits = t.cycle_fits;
      })

  checked :
      (ok : Bool) (o : Option Events) (x : Option (Bool × Sim)) (s : Sim)
      → (ok ≡ true → Outcome kind R L o x)
      → Holds kind R L s
      → Outcome kind R L (if ok then o else none) (if ok then x else some (false, s))
  checked true o x s h k = h refl
  checked false o x s h k = (s, refl, k)

  -- Within a rule: from logs that track the events so far, the rest of the rule ends as it should.
  pub interp-run :
      (rule : Rule) {written : ℕ → Bool} {l : Events} {s : Sim}
      → WellPorted kind written rule
      → Tracks kind written R L l s
      → Outcome kind R L (interp R L rule l) (run g rule s)
  unfolding interp run
  interp-run Rule.commit {s = s} w t = (
    g.commit_rule s,
    refl,
    rw (g.commit_copies s)
        (record { agrees = refl; rwset = t.rule_rwset; state = t.rule_state; fits = t.rule_fits }),
  )
  interp-run Rule.fail {s = s} w t = (g.reset_rule s, refl, aborted t)
  interp-run (Rule.rd0 r k) {l = l} {s = s} w t =
      rw
        (
          t.rule_rwset r,
          t.cycle_rwset r,
          read0_lem (l r ++ L r) (L r) (kind r) (s.cycle_log.state r) w.0 (t.cycle_fits r),
        )
        (checked (may_read0 L r) _ _ _
          (λ ok. rw (value ok) (interp-run (k (R r)) (w.1 (R r)) (Tracks-read0 kind R L r t)))
          (aborted t))
    where
      value : may_read0 L r ≡ true → s.cycle_log.state r ≡ R r
      value ok = t.cycle_state r ∙ latest_of_no_write (R r) (L r) (ground arith) (ground arith)
  interp-run (Rule.rd1 r k) {written = written} {l = l} {s = s} w t =
      rw
        (
          t.rule_rwset r,
          t.cycle_rwset r,
          read1_lem (l r ++ L r) (L r) (kind r) (s.rule_log.state r) w.0 (t.cycle_fits r),
        )
        (checked (may_read1 L r) _ _ _
          (λ ok. rw (value ok) (interp-run (k before) (w.2 before) (after before)))
          (aborted (after (s.rule_log.state r))))
    where
      before : ℕ
      before = latest_write0 (R r) (l r ++ L r)

      after :
          (v : ℕ)
          → Tracks kind written R L
              (cons l r Event.read1)
              (mark s r (access kind R L l r Event.read1 (may_read1 L r) v))
      after v = Tracks-read1 kind R L r v (may_read1 L r) w.0 t

      value : may_read1 L r ≡ true → s.rule_log.state r ≡ before
      value ok =
          t.rule_state r
          ∙ sym (
              latest_of_no_write1 (R r) (l r ++ L r)
                (has_write1-append (l r) (L r) (t.unwritten r w.1) (ground arith)))
  interp-run (Rule.wr0 r v k) {l = l} {s = s} w t =
      rw (t.rule_rwset r, write0_lem (l r ++ L r) (L r) (kind r) v (t.rule_fits r))
        (checked (may_write0 (l r ++ L r)) _ _ _
          (λ ok. interp-run k w (Tracks-write0 kind R L r v (may_write0 (l r ++ L r)) t))
          (aborted (Tracks-write0 kind R L r v (may_write0 (l r ++ L r)) t)))
  interp-run (Rule.wr1 r v k) {l = l} {s = s} w t =
      rw (t.rule_rwset r, write1_lem (l r ++ L r) (L r) (kind r) v w.0)
        (checked (may_write1 (l r ++ L r)) _ _ _
          (λ ok. interp-run k w.1 (Tracks-write1 kind R L r v (may_write1 (l r ++ L r)) w.0 t))
          (aborted (Tracks-write1 kind R L r v (may_write1 (l r ++ L r)) w.0 t)))
