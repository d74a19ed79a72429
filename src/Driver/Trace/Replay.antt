-- ===== src/Driver/Trace/Replay.antt =====
-- What a trace holds.
use koika.Prelude.{
  ℕ, zero, suc, ◌-◌, ◌^◌, ◌<◌, ◌≡◌, refl, sym, ap, ◌∙◌, true, false, inl, inr, some, List, [], ◌++◌,
  Bool-cases, if-true, if-false, some_inj,
}
use mathlib.Core.List.{append-nil}
use mathlib.Core.Path.{subst, ap₂}
use koika.Prelude.Loop.{loop, iterate}
use koika.Driver.{Simulator, finished}
use koika.Driver.Trace.{Tracing, trace_start, trace_step, trace}
use koika.Vcd.{Reader}
use koika.Vcd.Header.{Register, vcd_header, read_header-vcd_header}
use koika.Vcd.State.{readvars, vcd_readvars, AreRegisters, Fits}
use koika.Vcd.State.Turns.{readvars_end}
use koika.Vcd.State.Replay.{Leads, Leads-append, vcd_dumpvars-Leads}

-- A state that a file can hold: values that fit, and a cycle of 64 bits.
abbrev pub IsSound {ℓ} : {A : Type ℓ} → List Register → (A → List ℕ) → Simulator A → Type 0
IsSound regs snapshot sim = Fits regs (snapshot sim.state) × (sim.meta.cycle_id < 2 ^ 64)

-- A file that holds the lines is read from any state to the values that they lead to.
pub vcd_readvars-Leads :
    (regs : List Register) (date : List ℕ) (scopes : List (List ℕ)) (ls : List (List ℕ))
    (s : List ℕ) (c : ℕ) (t : List ℕ)
    → Leads regs ls s c t
    → vcd_readvars regs (vcd_header date scopes regs ls) s ≡ some (c, t)
unfolding vcd_readvars
vcd_readvars-Leads regs date scopes ls s c t lead =
    let start : Reader = record { cycle_id = 2 ^ 64 - 1; name = []; val = []; lines = ls } in
    let (r', e) = lead start [] in
    rw (read_header-vcd_header date scopes regs ls) (
      ap (λ t. readvars regs (record start { lines = t }) s) (sym (append-nil ls))
      ∙ e
      ∙ readvars_end regs (record r' { lines = []; cycle_id = c }) t refl)

module _ {ℓ} {A : Type ℓ} (regs : List Register) (snapshot : A → List ℕ)
    (g : AreRegisters regs) where
  -- The lines written so far, read from any state, give the latest one.
  record IsTraced (t : Tracing A) : Type ℓ where
    lines : List (List ℕ)
    written : t.vcd ≡ some lines
    latest_is : t.latest ≡ snapshot t.sim.state
    leads : (s : List ℕ) → Fits regs s → Leads regs lines s t.sim.meta.cycle_id t.latest

  trace_start-IsTraced :
      (sim : Simulator A) → IsSound regs snapshot sim → IsTraced (trace_start regs snapshot sim)
  unfolding trace_start
  trace_start-IsTraced sim (f, c) =
      let latest = snapshot sim.state in
      let (ls, printed, lead) =
        vcd_dumpvars-Leads regs sim.meta.cycle_id latest latest latest true g c f f f (inl refl) in
      record {
        lines = ls;
        written = printed;
        latest_is = refl;
        leads = λ s fs.
            let (ms, again, from) =
              vcd_dumpvars-Leads regs sim.meta.cycle_id latest s latest true g c f fs f
                (inl refl) in
            subst (λ t. Leads regs t s sim.meta.cycle_id latest) (some_inj (sym again ∙ printed))
              from;
      }

  trace_step-IsTraced :
      (next : Simulator A → Simulator A) (t : Tracing A)
      → IsSound regs snapshot t.sim
      → IsSound regs snapshot (next t.sim)
      → IsTraced t
      → IsTraced (trace_step regs snapshot next t)
  unfolding trace_step
  trace_step-IsTraced next t (f, c) (f', c') k =
      let sim : Simulator A = next t.sim in
      let current = snapshot sim.state in
      let before : Fits regs t.latest = subst (Fits regs) (sym k.latest_is) f in
      let (ms, printed, lead) =
        vcd_dumpvars-Leads regs sim.meta.cycle_id current t.latest t.latest false g c' f' before
          before (inr refl) in
      record {
        lines = k.lines ++ ms;
        written = rw (k.written, printed) refl;
        latest_is = refl;
        leads = λ s fs. Leads-append regs k.lines ms s _ t.latest _ current (k.leads s fs) lead;
      }

  -- The loop of a trace: its file is sound, and its simulator is that of a run.
  trace_loop :
      (next : Simulator A → Simulator A) (n : ℕ) (t : Tracing A)
      → ((k : ℕ) → IsSound regs snapshot (iterate next k t.sim))
      → IsTraced t
      → IsTraced (loop (λ t. finished t.sim) (trace_step regs snapshot next) n t)
        × ((loop (λ t. finished t.sim) (trace_step regs snapshot next) n t).sim
            ≡ loop finished next n t.sim)
  unfolding trace_step
  trace_loop next zero t sound k = (k, refl)
  trace_loop next (suc n) t sound k = elim (Bool-cases (finished t.sim)) [
    | inl stop ↦ (
      subst IsTraced (sym (if-true _ _ _ stop)) k,
      ap (λ (u : Tracing A). u.sim) (if-true _ _ _ stop) ∙ sym (if-true _ _ _ stop),
    )
    | inr going ↦
        let (k', same_sim) =
          trace_loop next n (trace_step regs snapshot next t) (λ j. sound (suc j))
            (trace_step-IsTraced next t (sound 0) (sound 1) k) in
        (
          subst IsTraced (sym (if-false _ _ _ going)) k',
          ap (λ (u : Tracing A). u.sim) (if-false _ _ _ going)
              ∙ same_sim
              ∙ sym (if-false _ _ _ going),
        )
  ]

  -- For registers of 1 to 64 bits with different names, and a design whose values fit and whose cycles
  -- have 64 bits after any number of cycles: a trace leaves the simulator as the run without one does,
  -- and writes a file from which `vcd_readvars` restores, in any state that fits, the values of the
  -- registers at the end of the run, and its cycle.
  pub vcd_readvars-trace :
      (next : Simulator A → Simulator A) (date : List ℕ) (scopes : List (List ℕ)) (n : ℕ)
      (sim : Simulator A)
      → ((k : ℕ) → IsSound regs snapshot (iterate next k sim))
      → (file : List (List ℕ)) × (trace regs snapshot date scopes next n sim
          ≡ (loop finished next n sim, some file))
        × ((s : List ℕ)
            → Fits regs s
            → vcd_readvars regs file s
              ≡ some (
                (loop finished next n sim).meta.cycle_id,
                snapshot (loop finished next n sim).state,
              ))
  unfolding trace
  vcd_readvars-trace next date scopes n sim sound =
      let (k, same_sim) =
        trace_loop next n (trace_start regs snapshot sim) sound
          (trace_start-IsTraced sim (sound 0)) in
      (
        vcd_header date scopes regs k.lines,
        ap₂ (λ s f. (s, f)) same_sim (rw k.written refl),
        λ s fs.
            vcd_readvars-Leads regs date scopes k.lines s _ _ (k.leads s fs)
            ∙ ap₂ (λ c t. some (c, t)) (ap (λ (t : Simulator A). t.meta.cycle_id) same_sim)
                (k.latest_is ∙ ap (λ (t : Simulator A). snapshot t.state) same_sim),
      )
