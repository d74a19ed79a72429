-- ===== src/Driver/Schedule.antt =====
-- A cycle as a sequence of rules: the scheduler of a design, as ocaml/backends/cpp.ml prints it, and
-- `cycle_randomized`, of which `run_randomized` and `init_and_run_randomized` of
-- ocaml/backends/resources/cuttlesim.hpp make a run. The generator of random numbers is a parameter.
pub mod Reachable
mod Examples
use koika.Prelude.{ℕ, Bool, true, false, Option, none, some, List, get_elem?, if◌then◌else◌}
use koika.Driver.{Design}

-- What a call of a rule leaves: whether it has committed, the state, and what it has passed to
-- `finish`, if it has called it.
pub record Fired {ℓ} (A : Type ℓ) : Type ℓ where
  pub ok : Bool
  pub state : A
  pub ended : Option (ℕ × ℕ)

-- A scheduler over the rules of a design, each given by its place among them.
pub data Scheduler : Type 0 where
  done : Scheduler
  cons : ℕ → Scheduler → Scheduler
  try_rule : ℕ → Scheduler → Scheduler → Scheduler

-- A later call of `finish` overwrites an earlier one.
abbrev pub later : Option (ℕ × ℕ) → Option (ℕ × ℕ) → Option (ℕ × ℕ)
later first none = first
later first (some e) = some e

module _ {ℓ} {A : Type ℓ} (rules : List (A → Fired A)) where
  -- A rule that is not there changes nothing.
  abbrev fire_at : Option (A → Fired A) → A → Fired A
  fire_at none a = record { ok = false; state = a; ended = none }
  fire_at (some rule) a = rule a

  pub fire : ℕ → A → Fired A
  fire i a = fire_at (get_elem? rules i) a

  pub run_scheduler : Scheduler → A → A × Option (ℕ × ℕ)
  run_scheduler Scheduler.done a = (a, none)
  run_scheduler (Scheduler.cons i s) a =
      let rest = run_scheduler s (fire i a).state in (rest.0, later (fire i a).ended rest.1)
  run_scheduler (Scheduler.try_rule i s₁ s₂) a =
      let rest₁ = run_scheduler s₁ (fire i a).state in
      let rest₂ = run_scheduler s₂ (fire i a).state in
      let rest = if (fire i a).ok then rest₁ else rest₂ in (rest.0, later (fire i a).ended rest.1)

  -- `cycle` runs the scheduler.
  unfoldable pub scheduled : Scheduler → Design A
  unfolding run_scheduler fire
  scheduled s = record { rules = run_scheduler s }

  -- `cycle_randomized` calls one rule, `rules[uniform(rng)]`; without rules it calls none.
  unfoldable pub randomized {κ} : {G : Type κ} → (G → ℕ × G) → Design (A × G)
  unfolding fire
  randomized draw = record {
    rules = λ (a, rng).
        let (i, rng') = draw rng in let fired = fire i a in ((fired.state, rng'), fired.ended);
  }

-- `gen_seed`: the seed of the generator, by the variable SIM_RANDOMIZED, `std::hash`, and the clock.
gen_seed : Option (List ℕ) → (List ℕ → ℕ) → ℕ → ℕ
gen_seed none hash now = now
gen_seed (some seed) hash now = hash seed
