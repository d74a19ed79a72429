-- ===== src/Driver/Exit.antt =====
-- How a run ends.
use koika.Prelude.{
  ℕ, zero, suc, ◌<◌, ◌≡◌, refl, sym, ap, ◌∙◌, arith, true, false, not, Option, none, some, bit_and,
  ◌==◌, if-false,
}
use mathlib.Core.Path.{subst}
use koika.Prelude.Loop.{loop, iterate, loop_stopped}
use koika.Driver.{
  initial_meta, Simulator, finished, finish, Design, cycle, run_cycles, init_and_run, report,
  ncycles_of, main, exit_info_state,
}

-- The states after each round of the rules, and what a round passes to `finish`.
abbrev pub after {ℓ} : {A : Type ℓ} → Design A → A → ℕ → A
after design init k = iterate (λ s. (design.rules s).0) k init

abbrev pub call {ℓ} : {A : Type ℓ} → Design A → A → ℕ → Option (ℕ × ℕ)
call design init k = (design.rules (after design init k)).1

-- No one has called `finish`.
pub record Running {ℓ} {A : Type ℓ} (sim : Simulator A) : Type 0 where
  pub going : sim.meta.finished ≡ false
  pub no_code : sim.meta.exit_code ≡ 0
  pub no_config : sim.meta.exit_config ≡ exit_info_state

module _ {ℓ} {A : Type ℓ} (design : Design A) where
  cycle-Running :
      (sim : Simulator A)
      → Running sim
      → (design.rules sim.state).1 ≡ none
      → Running (cycle design sim)
  unfolding cycle
  cycle-Running sim r quiet =
      rw quiet (record { going = r.going; no_code = r.no_code; no_config = r.no_config })

  loop_going :
      (n : ℕ) (sim : Simulator A)
      → finished sim ≡ false
      → loop finished (cycle design) (suc n) sim ≡ loop finished (cycle design) n (cycle design sim)
  loop_going n sim h = if-false _ _ _ h

  pub loop-Running :
      (n : ℕ) (sim : Simulator A)
      → Running sim
      → ((j : ℕ) → j < n → call design sim.state j ≡ none)
      → Running (loop finished (cycle design) n sim)
  unfolding cycle
  loop-Running zero sim r quiet = r
  loop-Running (suc n) sim r quiet = subst Running (sym (loop_going n sim r.going)) (
      loop-Running n (cycle design sim) (cycle-Running sim r (quiet 0 (omega arith)))
        (λ j h. quiet (suc j) (omega (arith, h))))

  loop_finish :
      (n j : ℕ) (sim : Simulator A) (config code : ℕ)
      → Running sim
      → j < n
      → ((i : ℕ) → i < j → call design sim.state i ≡ none)
      → call design sim.state j ≡ some (config, code)
      → report (loop finished (cycle design) n sim)
        ≡ (not (bit_and config exit_info_state == 0), code)
  unfolding report cycle finish
  loop_finish zero j sim config code r h quiet e = absurd (omega (arith, h))
  loop_finish (suc n) zero sim config code r h quiet e =
      ap report (
        loop_going n sim r.going
        ∙ loop_stopped finished (cycle design) n (cycle design sim) (rw e refl))
      ∙ rw e refl
  loop_finish (suc n) (suc j) sim config code r h quiet e =
      ap report (loop_going n sim r.going)
      ∙ (loop_finish n j (cycle design sim) config code
          (cycle-Running sim r (quiet 0 (omega arith))) (omega (arith, h))
          (λ i k. quiet (suc i) (omega (arith, k))) e)

-- If none of the first `ncycles` rounds of the rules calls `finish`, `main` prints the state and
-- exits with 0. If round `j` is the first to call it, before `ncycles` rounds are over, `main` exits
-- with the code of that call, and prints the state if the call's configuration has that bit.
pub main_lem {ℓ} :
    {A : Type ℓ} (design : Design A) (init : A) (cycle_id : ℕ) (argument : Option ℕ)
    → (((j : ℕ) → j < ncycles_of argument → call design init j ≡ none)
        → main design init cycle_id argument ≡ (true, 0))
      × ((j config code : ℕ)
          → j < ncycles_of argument
          → ((i : ℕ) → i < j → call design init i ≡ none)
          → call design init j ≡ some (config, code)
          → main design init cycle_id argument ≡ (not (bit_and config exit_info_state == 0), code))
unfolding main init_and_run run_cycles report
main_lem {A = A} design init cycle_id argument = (silent, calls)
  where
    start : Simulator A
    start = record { state = init; meta = initial_meta cycle_id }

    start-Running : Running start
    start-Running = record { going = refl; no_code = refl; no_config = refl }

    silent :
        ((j : ℕ) → j < ncycles_of argument → call design init j ≡ none)
        → report (loop finished (cycle design) (ncycles_of argument) start) ≡ (true, 0)
    silent quiet =
        let r = loop-Running design (ncycles_of argument) start start-Running quiet in
        rw (r.no_code, r.no_config) refl

    calls :
        (j config code : ℕ)
        → j < ncycles_of argument
        → ((i : ℕ) → i < j → call design init i ≡ none)
        → call design init j ≡ some (config, code)
        → report (loop finished (cycle design) (ncycles_of argument) start)
          ≡ (not (bit_and config exit_info_state == 0), code)
    calls j config code h quiet e =
        loop_finish design (ncycles_of argument) j start config code start-Running h quiet e
