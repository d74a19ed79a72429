-- ===== src/Verilator/Run.antt =====
-- What the driver does to a design.
use koika.Prelude.{
  ℕ, zero, suc, ◌+◌, ◌*◌, ◌%◌, ◌^◌, ◌≡◌, refl, sym, ap, ◌∙◌, arith, Bool, true, false, inl, inr,
}
use koika.Prelude.Loop.{iterate, Turns, loop-iterate}
use koika.Verilator.{
  Dut, Toplevel, clock, reset_signal, eval_dut, tick, cycle, reset, run, toplevel,
}

module _ {ℓ} {A : Type ℓ} (dut : Dut A) where
  -- A design after a reset: low clock, then one clock cycle, with RST_N low.
  abbrev pub after_reset : A → A
  after_reset a = dut.eval false false (dut.eval true false (dut.eval false false a))

  -- One clock cycle with RST_N high.
  abbrev pub clock_cycle : A → A
  clock_cycle a = dut.eval false true (dut.eval true true a)

  -- The driver's object between cycles.
  abbrev pub between : ℕ → A → Toplevel A
  between t a = record { clk = false; rst_n = true; time = t % 2 ^ 64; inner = a }

  cycle-between : (t : ℕ) (a : A) → cycle dut (between t a) ≡ between (t + 10) (clock_cycle a)
  unfolding cycle tick eval_dut clock
  cycle-between t a =
      ap (λ u. record { clk = false; rst_n = true; time = u; inner = clock_cycle a }) (omega arith)

  iterate-between :
      (k t : ℕ) (a : A)
      → iterate (cycle dut) k (between t a) ≡ between (t + k * 10) (iterate clock_cycle k a)
  iterate-between zero t a = ap (λ u. between u a) (omega arith)
  iterate-between (suc k) t a =
      ap (iterate (cycle dut) k) (cycle-between t a)
      ∙ iterate-between k (t + 10) (clock_cycle a)
      ∙ ap (λ u. between u (iterate clock_cycle k (clock_cycle a))) (omega arith)

  reset-between :
      (clk rst_n : Bool) (init : A)
      → reset dut (toplevel clk rst_n init) ≡ between 10 (after_reset init)
  unfolding reset cycle tick eval_dut clock reset_signal
  reset-between clk rst_n init = refl

  -- Whatever the signals are at first, `run` resets the design and clocks it up to the first state in
  -- which it has called `$finish`, or for `ncycles` cycles; and the time says how many cycles have
  -- passed, that of the reset included, at 10 units each and modulo `2 ^ 64`.
  pub run_lem :
      (clk rst_n : Bool) (init : A) (ncycles : ℕ)
      → (k : ℕ) × (run dut ncycles (toplevel clk rst_n init)
          ≡ between (10 + k * 10) (iterate clock_cycle k (after_reset init)))
        × Turns dut.got_finish clock_cycle ncycles (after_reset init) k
  unfolding run
  run_lem clk rst_n init ncycles =
      let (k, ran, (few, before, why)) =
        loop-iterate (λ (t : Toplevel A). dut.got_finish t.inner) (cycle dut) ncycles
          (reset dut (toplevel clk rst_n init)) in
      (
        k,
        ran ∙ state k,
        (
          few,
          λ j h. sym (finishes j) ∙ before j h,
          elim why [ inl all ↦ inl all | inr stopped ↦ inr (sym (finishes k) ∙ stopped) ],
        ),
      )
    where
      state :
          (k : ℕ)
          → iterate (cycle dut) k (reset dut (toplevel clk rst_n init))
            ≡ between (10 + k * 10) (iterate clock_cycle k (after_reset init))
      state k =
          ap (iterate (cycle dut) k) (reset-between clk rst_n init)
          ∙ iterate-between k 10 (after_reset init)

      finishes :
          (k : ℕ)
          → dut.got_finish (iterate (cycle dut) k (reset dut (toplevel clk rst_n init))).inner
            ≡ dut.got_finish (iterate clock_cycle k (after_reset init))
      finishes k = ap (λ (t : Toplevel A). dut.got_finish t.inner) (state k)
