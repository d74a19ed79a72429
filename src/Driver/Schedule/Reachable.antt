-- ===== src/Driver/Schedule/Reachable.antt =====
-- Which rules a run fires, in which order.
use koika.Prelude.{
  Option, none, some, refl, ◌⊎◌, ◌+◌, ◌%◌, ◌^◌, ℕ, zero, suc, ◌≡◌, sym, true, false, List, [], ◌∷◌,
  Bool-cases, inl, inr, if-false,
}
use mathlib.Core.Path.{subst}
use koika.Prelude.Loop.{loop, loop_stopped, iterate, Turns, loop-iterate}
use koika.Driver.{
  apply_finish, finish, Metadata, Simulator, finished, cycle, run_cycles, init_and_run,
  initial_meta,
}
use koika.Driver.Schedule.{later, Fired, Scheduler, fire, run_scheduler, scheduled, randomized}

-- The rules at these places, fired one after another, take a state to another.
pub data Steps {ℓ} {A : Type ℓ} (rules : List (A → Fired A)) : A → List ℕ → A → Type ℓ where
  stop : {a : A} → Steps rules a [] a
  step :
      {a b : A} {i : ℕ} {is : List ℕ}
      → Steps rules (fire rules i a).state is b
      → Steps rules a (i ∷ is) b

-- A way through a scheduler: after a rule that commits the first branch of a `try_rule` is taken, after
-- one that fails the second.
pub data Way {ℓ} {A : Type ℓ} (rules : List (A → Fired A))
    : Scheduler → A → List ℕ → A → Type ℓ where
  at_done : {a : A} → Way rules Scheduler.done a [] a
  at_cons :
      {i : ℕ} {s : Scheduler} {a b : A} {is : List ℕ}
      → Way rules s (fire rules i a).state is b
      → Way rules (Scheduler.cons i s) a (i ∷ is) b
  at_committed :
      {i : ℕ} {s t : Scheduler} {a b : A} {is : List ℕ}
      → (fire rules i a).ok ≡ true
      → Way rules s (fire rules i a).state is b
      → Way rules (Scheduler.try_rule i s t) a (i ∷ is) b
  at_failed :
      {i : ℕ} {s t : Scheduler} {a b : A} {is : List ℕ}
      → (fire rules i a).ok ≡ false
      → Way rules t (fire rules i a).state is b
      → Way rules (Scheduler.try_rule i s t) a (i ∷ is) b

-- None of the rules at these places calls `finish` when they are fired one after another.
abbrev pub IsQuiet {ℓ} : {A : Type ℓ} → List (A → Fired A) → A → List ℕ → Type 0
IsQuiet rules a [] = Unit
IsQuiet rules a (i ∷ is) = ((fire rules i a).ended ≡ none) × IsQuiet rules (fire rules i a).state is

-- The last of them to call `finish` passes `c`.
abbrev pub Finishes {ℓ} : {A : Type ℓ} → List (A → Fired A) → A → List ℕ → ℕ × ℕ → Type 0
Finishes rules a [] c = ⊥
Finishes rules a (i ∷ is) c =
    (((fire rules i a).ended ≡ some c) × IsQuiet rules (fire rules i a).state is)
    ⊎ Finishes rules (fire rules i a).state is c

-- A run of at most so many cycles: the rules fired in each, up to the first cycle in which one calls
-- `finish`; then what the last call passes.
pub data Run {ℓ} {A : Type ℓ} (rules : List (A → Fired A)) (s : Scheduler)
    : ℕ → A → List (List ℕ) → A → Option (ℕ × ℕ) → Type ℓ where
  out_of_cycles : {a : A} → Run rules s zero a [] a none
  finishes :
      {n : ℕ} {a b : A} {is : List ℕ} {c : ℕ × ℕ}
      → Way rules s a is b
      → Finishes rules a is c
      → Run rules s (suc n) a (is ∷ []) b (some c)
  goes_on :
      {n : ℕ} {a b d : A} {is : List ℕ} {iss : List (List ℕ)} {e : Option (ℕ × ℕ)}
      → Way rules s a is b
      → IsQuiet rules a is
      → Run rules s n b iss d e
      → Run rules s (suc n) a (is ∷ iss) d e

-- The metadata after a run with this outcome.
abbrev pub Reports : Option (ℕ × ℕ) → Metadata → Type 0
Reports none meta = meta.finished ≡ false
Reports (some c) meta = (meta.finished ≡ true) × (meta.exit_config ≡ c.0) × (meta.exit_code ≡ c.1)

-- The numbers drawn one after another.
abbrev pub draws {κ} : {G : Type κ} → (G → ℕ × G) → ℕ → G → List ℕ
draws draw zero rng = []
draws draw (suc k) rng = (draw rng).0 ∷ draws draw k (draw rng).1

module _ {ℓ} {A : Type ℓ} (rules : List (A → Fired A)) where
  -- What a scheduler passes to `finish` is what its rules pass.
  abbrev Announces : A → List ℕ → Option (ℕ × ℕ) → Type 0
  Announces a is none = IsQuiet rules a is
  Announces a is (some c) = Finishes rules a is c

  announce :
      (i : ℕ) (a : A) (is : List ℕ) (first rest : Option (ℕ × ℕ))
      → (fire rules i a).ended ≡ first
      → Announces (fire rules i a).state is rest
      → Announces a (i ∷ is) (later first rest)
  announce i a is none none e h = (e, h)
  announce i a is (some c) none e h = inl (e, h)
  announce i a is first (some c) e h = inr h

  -- The calls of a scheduler, the state and the finish that they leave.
  abbrev Calls : Scheduler → A → A × Option (ℕ × ℕ) → Type ℓ
  Calls s a x = (is : List ℕ) × Way rules s a is x.0 × Announces a is x.1

  run_scheduler-Calls : (s : Scheduler) (a : A) → Calls s a (run_scheduler rules s a)
  unfolding run_scheduler
  run_scheduler-Calls Scheduler.done a = ([], Way.at_done, tt)
  run_scheduler-Calls (Scheduler.cons i s) a =
      let (is, path, ends) = run_scheduler-Calls s (fire rules i a).state in
      (i ∷ is, Way.at_cons path, announce i a is (fire rules i a).ended _ refl ends)
  run_scheduler-Calls (Scheduler.try_rule i s t) a =
      let (is, path, ends) = run_scheduler-Calls s (fire rules i a).state in
      let (js, other, other_ends) = run_scheduler-Calls t (fire rules i a).state in
      elim (Bool-cases (fire rules i a).ok) [
        | inl ok ↦
            rw ok
              (i ∷ is, Way.at_committed ok path, announce i a is (fire rules i a).ended _ refl ends)
        | inr failed ↦ rw failed (
          i ∷ js,
          Way.at_failed failed other,
          announce i a js (fire rules i a).ended _ refl other_ends,
        )
      ]

  abbrev pub Runs : Scheduler → ℕ → A → Simulator A → Type ℓ
  Runs s n a sim =
      (iss : List (List ℕ)) × (e : Option (ℕ × ℕ)) × Run rules s n a iss sim.state e
      × Reports e sim.meta

  -- A cycle, and then the others if it has not finished.
  after_cycle :
      (s : Scheduler) (n : ℕ) (a : A) (meta : Metadata) (x : A × Option (ℕ × ℕ))
      → meta.finished ≡ false
      → Calls s a x
      → ((m : Metadata)
          → m.finished ≡ false
          → Runs s n x.0
              (loop finished (cycle (scheduled rules s)) n (record { state = x.0; meta = m })))
      → Runs s (suc n) a (
          loop finished
            (cycle (scheduled rules s))
            n
            (record { state = x.0; meta = apply_finish x.1 meta }))
  unfolding finish
  after_cycle s n a meta (b, none) going (is, path, quiet) others =
      let (iss, e, run, reports) = others meta going in
      (is ∷ iss, e, Run.goes_on path quiet run, reports)
  after_cycle s n a meta (b, some c) going (is, path, ends) others =
      rw
        (loop_stopped finished (cycle (scheduled rules s)) n
          (record { state = b; meta = finish c.0 c.1 meta }) refl)
        (is ∷ [], some c, Run.finishes path ends, (refl, refl, refl))

  run_cycles-Runs :
      (s : Scheduler) (n : ℕ) (sim : Simulator A)
      → sim.meta.finished ≡ false
      → Runs s n sim.state (run_cycles (scheduled rules s) n sim)
  unfolding run_cycles cycle scheduled
  run_cycles-Runs s zero sim going = ([], none, Run.out_of_cycles, going)
  run_cycles-Runs s (suc n) sim going =
      subst (Runs s (suc n) sim.state) (sym (if-false _ _ _ going)) (
        after_cycle s n sim.state (record sim.meta { cycle_id = (sim.meta.cycle_id + 1) % 2 ^ 64 })
          (run_scheduler rules s sim.state) going (run_scheduler-Calls s sim.state)
          (λ m h.
            run_cycles-Runs s n (record { state = (run_scheduler rules s sim.state).0; meta = m })
              h))

  -- One cycle of a randomized run fires the rule that is drawn.
  iterate-Steps {κ} :
      {G : Type κ} (draw : G → ℕ × G) (k : ℕ) (sim : Simulator (A × G))
      → Steps rules sim.state.0
          (draws draw k sim.state.1)
          (iterate (cycle (randomized rules draw)) k sim).state.0
  unfolding cycle randomized
  iterate-Steps draw zero sim = Steps.stop
  iterate-Steps draw (suc k) sim =
      Steps.step (iterate-Steps draw k (cycle (randomized rules draw) sim))

  -- A run by a scheduler fires, in each cycle, the rules on its way through the scheduler, which
  -- after a rule of a `try` is the first branch if the rule has committed and the second if it has
  -- failed, up to the first cycle in which one of them calls `finish`, or `ncycles` of them. It
  -- ends in the state that they leave; its metadata say that it has not finished, or that it has,
  -- with what the last call of `finish` passed. A randomized run fires the rules that are drawn,
  -- one in each cycle and in the order of their drawing, up to the first cycle after which a rule
  -- has called `finish`, or `ncycles` of them.
  pub init_and_run-Steps {κ} :
      {G : Type κ} (s : Scheduler) (draw : G → ℕ × G) (rng : G) (init : A) (cycle_id ncycles : ℕ)
      → Runs s ncycles init (init_and_run (scheduled rules s) init cycle_id ncycles)
        × ((k : ℕ) × Steps rules init
              (draws draw k rng)
              (init_and_run (randomized rules draw) (init, rng) cycle_id ncycles).state.0
            × Turns finished
                (cycle (randomized rules draw))
                ncycles
                (record { state = (init, rng); meta = initial_meta cycle_id })
                k)
  unfolding init_and_run run_cycles
  init_and_run-Steps {G = G} s draw rng init cycle_id ncycles =
      let start : Simulator (A × G) = record {
        state = (init, rng);
        meta = initial_meta cycle_id;
      } in
      let (k, ran, turns) = loop-iterate finished (cycle (randomized rules draw)) ncycles start in
      (
        run_cycles-Runs s ncycles (record { state = init; meta = initial_meta cycle_id }) refl,
        (
          k,
          subst (λ (t : Simulator (A × G)). Steps rules init (draws draw k rng) t.state.0) (sym ran)
              (iterate-Steps draw k start),
          turns,
        ),
      )
