-- ===== src/Compiler/Access.antt =====
-- Accesses in the code of a rule: what the analysis and the logs say of their checks and values.
use mathlib.Core.Path.{subst}
use koika.Prelude.{ℕ, true, false, List, ◌++◌, ◌≡◌, refl, sym, ◌∙◌, inl, inr, ◌==◌, cases_eq, arith}
use koika.Registers.Rule.{Sim, update}
use koika.Registers.Spec.{
  Event, Events, has_write1, latest_write0, may_read0, may_read1, may_write0, may_write1,
}
use koika.Registers.Refine.Access.{latest_of_no_write1, latest_of_no_write}
use koika.Compiler.History.{History, may, RegisterKind, update_write0, update_write1}
use koika.Compiler.Action.{Histories, update_map}
use koika.Compiler.Code.{is_value}
use koika.Compiler.Below.{Below, BelowMap}
use koika.Compiler.Clean.{
  rule_clean, clean_read0, clean_write0, clean_read1, clean_write1, update_write0_clean,
  update_write1_clean,
}
use koika.Compiler.Skip.{absent, read1-skip, write0-skip, write1-skip}
use koika.Compiler.Reset.{Suits}
use koika.Compiler.Tracked.{Reports, Tracked}

pub update_same {ℓ} : {A : Type ℓ} (f : ℕ → A) (r : ℕ) (a : A) → update f r a r ≡ a
update_same f r a = elim (cases_eq r r) [ inl (e, t) ↦ rw t refl | inr t ↦ absurd_here t ]
  where
    absurd_here : (r == r) ≡ false → update f r a r ≡ a
    absurd_here t = ground (arith, t)

pub updated-Below :
    (h : Histories) (r : ℕ) (f : History → History) {final : Histories}
    → BelowMap (update_map h r f) final
    → Below (f (h r)) (final r)
updated-Below h r f {final} b = subst (λ g. Below g (final r)) (update_same h r (f (h r))) (b r)

module _ (registers : List ℕ) (kinds : ℕ → RegisterKind) (R : ℕ → ℕ) (sched final : Histories)
    (L : Events) (suits : Suits registers kinds sched final L) where
  -- Accesses to registers without a set pass.
  pub value_read0 :
      (r : ℕ) → is_value (kinds r) ≡ true → may (final r).hr0 ≡ true → may_read0 L r ≡ true
  value_read0 r v p =
      let (no0, no1) = clean_read0 (sched r) (final r) (suits.clean r v) p in
      rw (absent _ _ (suits.reports r).write0 no0, absent _ _ (suits.reports r).write1 no1) refl

  pub value_read1 :
      (r : ℕ) → is_value (kinds r) ≡ true → may (final r).hr1 ≡ true → may_read1 L r ≡ true
  value_read1 r v p =
      rw (absent _ _ (suits.reports r).write1 (clean_read1 (sched r) (final r) (suits.clean r v) p))
        refl

  pub value_write0 :
      (r : ℕ) (h : History) (es : List Event)
      → is_value (kinds r) ≡ true
      → Below (update_write0 h) (final r)
      → Reports h es
      → may_write0 (es ++ L r) ≡ true
  value_write0 r h es v b m =
      let (no_r, no0, no1) = clean_write0 (sched r) (final r) (suits.clean r v) (b.w0 refl) in
      let (no_r', no0', no1') =
        update_write0_clean h (b.cf (rule_clean (sched r) (final r) (suits.clean r v))) in
      rw
        (
          read1-skip (L r) es (absent _ _ m.read1 no_r'),
          write0-skip (L r) es (absent _ _ m.write0 no0'),
          write1-skip (L r) es (absent _ _ m.write1 no1'),
          absent _ _ (suits.reports r).read1 no_r,
          absent _ _ (suits.reports r).write0 no0,
          absent _ _ (suits.reports r).write1 no1,
        )
        refl

  pub value_write1 :
      (r : ℕ) (h : History) (es : List Event)
      → is_value (kinds r) ≡ true
      → Below (update_write1 h) (final r)
      → Reports h es
      → may_write1 (es ++ L r) ≡ true
  value_write1 r h es v b m =
      let no1 = clean_write1 (sched r) (final r) (suits.clean r v) (b.w1 refl) in
      let no1' = update_write1_clean h (b.cf (rule_clean (sched r) (final r) (suits.clean r v))) in
      rw (write1-skip (L r) es (absent _ _ m.write1 no1'), absent _ _ (suits.reports r).write1 no1)
        refl

  -- The value that a read at port 0 gives.
  pub value0 :
      {l : Events} {s : Sim} (r : ℕ)
      → Tracked kinds R L l s
      → may_read0 L r ≡ true
      → s.cycle_log.state r ≡ R r
  value0 r t ok = t.cycle_state r ∙ latest_of_no_write (R r) (L r) (ground arith) (ground arith)

  -- The value that a read at port 1 gives, where the rule has not written at port 1.
  pub value1 :
      {l : Events} {s : Sim} (r : ℕ)
      → Tracked kinds R L l s
      → has_write1 (l r) ≡ false
      → may_read1 L r ≡ true
      → s.rule_log.state r ≡ latest_write0 (R r) (l r ++ L r)
  value1 {l} r t unwritten ok =
      t.rule_state r
      ∙ sym (
          latest_of_no_write1 (R r) (l r ++ L r) (write1-skip (L r) (l r) unwritten ∙ ground arith))
