-- ===== src/Driver/Resume/Laws.antt =====
-- A run that is saved and resumed is one run.
use koika.Prelude.{ℕ, ◌+◌, ◌^◌, ◌<◌, ◌≡◌, refl, sym, ap, ◌∙◌, true, false, none, some, List, inl}
use mathlib.Core.Path.{subst}
use koika.Prelude.Loop.{loop-add}
use koika.Driver.{Simulator, finished, cycle, run_cycles, initial_meta, ncycles_of}
use koika.Driver.Exit.{call, Running, loop-Running}
use koika.Driver.Trace.Replay.{vcd_readvars-Leads}
use koika.Driver.Resume.Alike.{IsModule, Alike, run-Alike, save-Alike, run_sound}
use koika.Driver.Resume.{Module, save, load, resume, new_simulator}
use koika.Vcd.Header.{vcd_header}
use koika.Vcd.State.{Fits}
use koika.Vcd.State.Read.{vcd_readvars-returns}
use koika.Vcd.State.Replay.{vcd_dumpvars-Leads}

module _ {ℓ} {A : Type ℓ} (m : Module A) (is : IsModule m) where
  -- A saved simulator is loaded into a new one that a file cannot tell from it, if it has not ended.
  load-save :
      (date : List ℕ) (scopes : List (List ℕ)) (s : Simulator A) (cycle_id : ℕ)
      → Fits m.regs (m.snapshot s.state)
      → s.meta.cycle_id < 2 ^ 64
      → s.meta.finished ≡ false
      → (file : List (List ℕ)) × (t : Simulator A) × (save m date scopes s ≡ some file)
        × (load m file (new_simulator m cycle_id) ≡ some t)
        × Alike m t s
  unfolding save load
  load-save date scopes s cycle_id f c going =
      let latest = m.snapshot s.state in
      let start = m.snapshot m.init in
      let (ls, printed, lead) =
        vcd_dumpvars-Leads m.regs s.meta.cycle_id latest start latest true is.registers c f
          is.init_fits f (inl refl) in
      let read = vcd_readvars-Leads m.regs date scopes ls start s.meta.cycle_id latest lead in
      (
        vcd_header date scopes m.regs ls,
        record {
          state = m.set_state m.init latest;
          meta = record (initial_meta cycle_id) { cycle_id = s.meta.cycle_id };
        },
        rw printed refl,
        rw read refl,
        record { values = is.snapshot-set_state m.init latest f; cycles = refl; ends = sym going },
      )

  -- Any file loads: the registers fit, the cycle has 64 bits, and the simulator runs.
  load-returns :
      (file : List (List ℕ)) (cycle_id : ℕ)
      → (s : Simulator A) × (load m file (new_simulator m cycle_id) ≡ some s)
        × Fits m.regs (m.snapshot s.state)
        × (s.meta.cycle_id < 2 ^ 64)
        × Running s
  unfolding load
  load-returns file cycle_id =
      let ((c, vs, read, small, fits), _) =
        vcd_readvars-returns m.regs file (m.snapshot m.init) is.registers is.init_fits in
      (
        record {
          state = m.set_state m.init vs;
          meta = record (initial_meta cycle_id) { cycle_id = c };
        },
        rw read refl,
        subst (Fits m.regs) (sym (is.snapshot-set_state m.init vs fits)) fits,
        small,
        record { going = refl; no_code = refl; no_config = refl },
      )

  save-returns :
      (date : List ℕ) (scopes : List (List ℕ)) (s : Simulator A)
      → Fits m.regs (m.snapshot s.state)
      → s.meta.cycle_id < 2 ^ 64
      → (file : List (List ℕ)) × (save m date scopes s ≡ some file)
  unfolding save
  save-returns date scopes s f c =
      let latest = m.snapshot s.state in
      let (ls, printed, _) =
        vcd_dumpvars-Leads m.regs s.meta.cycle_id latest latest latest true is.registers c f f f
          (inl refl) in
      (vcd_header date scopes m.regs ls, rw printed refl)

  resume-eq :
      (date : List ℕ) (scopes : List (List ℕ)) (c n : ℕ) (file : List (List ℕ)) (s : Simulator A)
      → load m file (new_simulator m c) ≡ some s
      → resume m date scopes c (some n) file ≡ save m date scopes (run_cycles m.design n s)
  unfolding resume ncycles_of
  resume-eq date scopes c n file s e = rw e refl

  -- The number that the constructor leaves does not matter.
  load_any :
      (file : List (List ℕ)) (c d : ℕ)
      → load m file (new_simulator m c) ≡ load m file (new_simulator m d)
  unfolding load
  load_any file c d = refl

  run_cycles-add :
      (n k : ℕ) (s : Simulator A)
      → run_cycles m.design (n + k) s ≡ run_cycles m.design k (run_cycles m.design n s)
  unfolding run_cycles
  run_cycles-add n k s = loop-add finished (cycle m.design) n k s

  -- For generated code as `IsModule` describes it, any file, and a first run of `n` cycles in which no
  -- round of the rules calls `finish`: the program saves a file, and a second run of `k` cycles that
  -- starts from that file saves what one run of `n + k` cycles from the first file saves. The first
  -- cycle numbers of the three simulators, which the constructor leaves open, do not matter.
  pub resume-resume :
      (date first_date : List ℕ) (scopes : List (List ℕ)) (c₁ c₂ c₃ n k : ℕ) (file : List (List ℕ))
      → ((s : Simulator A)
          → load m file (new_simulator m c₁) ≡ some s
          → (j : ℕ) → j < n
          → call m.design s.state j ≡ none)
      → (saved : List (List ℕ)) × (last : List (List ℕ)) × (resume m first_date scopes c₁
            (some n)
            file
          ≡ some saved)
        × (resume m date scopes c₂ (some k) saved ≡ some last)
        × (resume m date scopes c₃ (some (n + k)) file ≡ some last)
  resume-resume date first_date scopes c₁ c₂ c₃ n k file quiet =
      let (s, loaded, fits, small, running) = load-returns file c₁ in
      let u : Simulator A = run_cycles m.design n s in
      let (u_fits, u_small) = run_sound m is n s fits small in
      let ended : u.meta.finished ≡ false =
        unfold run_cycles in (loop-Running m.design n s running (quiet s loaded)).going in
      let (saved, t, saves, reloaded, alike) =
        load-save first_date scopes u c₂ u_fits u_small ended in
      let (v_fits, v_small) = run_sound m is k u u_fits u_small in
      let (last, ends) = save-returns date scopes (run_cycles m.design k u) v_fits v_small in
      (
        saved,
        last,
        resume-eq first_date scopes c₁ n file s loaded ∙ saves,
        resume-eq date scopes c₂ k saved t reloaded
            ∙ save-Alike m is date scopes _ _ (run-Alike m is k t u alike)
            ∙ ends,
        resume-eq date scopes c₃ (n + k) file s (load_any file c₃ c₁ ∙ loaded)
            ∙ ap (save m date scopes) (run_cycles-add n k s)
            ∙ ends,
      )
