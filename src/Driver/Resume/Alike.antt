-- ===== src/Driver/Resume/Alike.antt =====
-- Simulators that a file cannot tell apart run alike.
use koika.Prelude.{
  ℕ, zero, suc, ◌+◌, ◌%◌, ◌^◌, ◌<◌, ◌≡◌, refl, sym, ap, ◌∙◌, arith, true, Option, none, some, List,
  Bool-cases, inl, inr, if-true, if-false, ◌>>=◌,
}
use mathlib.Core.Path.{subst, subst₂, ap₂}
use koika.Driver.{Simulator, Metadata, finished, finish, apply_finish, cycle, run_cycles}
use koika.Driver.Trace.Main.{cycle-cycle_id}
use koika.Driver.Resume.{Module, save}
use koika.Vcd.Header.{vcd_header}
use koika.Vcd.State.{vcd_dumpvars, AreRegisters, Fits}

-- The generated code: values put into the registers are there, values that fit stay so, and what a
-- cycle does to the registers depends on the registers only.
pub record IsModule {ℓ} {A : Type ℓ} (m : Module A) : Type ℓ where
  pub registers : AreRegisters m.regs
  pub init_fits : Fits m.regs (m.snapshot m.init)
  pub snapshot-set_state :
      (a : A) (vs : List ℕ) → Fits m.regs vs → m.snapshot (m.set_state a vs) ≡ vs
  pub rules_fit :
      (a : A) → Fits m.regs (m.snapshot a) → Fits m.regs (m.snapshot (m.design.rules a).0)
  pub rules_same :
      (a b : A)
      → m.snapshot a ≡ m.snapshot b
      → (m.snapshot (m.design.rules a).0 ≡ m.snapshot (m.design.rules b).0)
        × ((m.design.rules a).1 ≡ (m.design.rules b).1)

-- Simulators that a file cannot tell apart, and that both run on or both stop.
pub record Alike {ℓ} {A : Type ℓ} (m : Module A) (s t : Simulator A) : Type 0 where
  pub values : m.snapshot s.state ≡ m.snapshot t.state
  pub cycles : s.meta.cycle_id ≡ t.meta.cycle_id
  pub ends : s.meta.finished ≡ t.meta.finished

module _ {ℓ} {A : Type ℓ} (m : Module A) (is : IsModule m) where
  ends_same :
      (c d : Option (ℕ × ℕ)) (s t : Metadata)
      → c ≡ d
      → s.finished ≡ t.finished
      → (apply_finish c s).finished ≡ (apply_finish d t).finished
  unfolding finish
  ends_same none none s t e h = h
  ends_same none (some d) s t e h = cc
  ends_same (some c) none s t e h = cc
  ends_same (some c) (some d) s t e h = refl

  cycle-Alike : (s t : Simulator A) → Alike m s t → Alike m (cycle m.design s) (cycle m.design t)
  cycle-Alike s t k =
      let (values, calls) = is.rules_same s.state t.state k.values in
      record {
        values = unfold cycle in values;
        cycles =
            cycle-cycle_id m.design s
            ∙ ap (λ c. (c + 1) % 2 ^ 64) k.cycles
            ∙ sym (cycle-cycle_id m.design t);
        ends = unfold cycle in ends_same _ _ _ _ calls k.ends;
      }

  pub run-Alike :
      (n : ℕ) (s t : Simulator A)
      → Alike m s t
      → Alike m (run_cycles m.design n s) (run_cycles m.design n t)
  unfolding run_cycles
  run-Alike zero s t k = k
  run-Alike (suc n) s t k = elim (Bool-cases (finished s)) [
    | inl stop ↦
        subst₂ (Alike m) (sym (if-true _ _ _ stop)) (sym (if-true _ _ _ (sym k.ends ∙ stop))) k
    | inr going ↦
        subst₂ (Alike m) (sym (if-false _ _ _ going)) (sym (if-false _ _ _ (sym k.ends ∙ going)))
          (run-Alike n (cycle m.design s) (cycle m.design t) (cycle-Alike s t k))
  ]

  -- What is saved is what a file can tell.
  pub save-Alike :
      (date : List ℕ) (scopes : List (List ℕ)) (s t : Simulator A)
      → Alike m s t
      → save m date scopes s ≡ save m date scopes t
  unfolding save
  save-Alike date scopes s t k =
      ap₂
        (λ c vs.
          vcd_dumpvars m.regs c vs vs true >>= λ lines. some (vcd_header date scopes m.regs lines))
        k.cycles k.values

  pub run_sound :
      (n : ℕ) (s : Simulator A)
      → Fits m.regs (m.snapshot s.state)
      → s.meta.cycle_id < 2 ^ 64
      → Fits m.regs (m.snapshot (run_cycles m.design n s).state)
        × ((run_cycles m.design n s).meta.cycle_id < 2 ^ 64)
  unfolding run_cycles
  run_sound zero s f c = (f, c)
  run_sound (suc n) s f c = elim (Bool-cases (finished s)) [
    | inl stop ↦ subst Sound (sym (if-true _ _ _ stop)) (f, c)
    | inr going ↦ subst Sound (sym (if-false _ _ _ going)) (
        run_sound n (cycle m.design s) (unfold cycle in is.rules_fit s.state f)
          (omega (arith, cycle-cycle_id m.design s)))
  ]
    where
      Sound : Simulator A → Type 0
      Sound u = Fits m.regs (m.snapshot u.state) × (u.meta.cycle_id < 2 ^ 64)
