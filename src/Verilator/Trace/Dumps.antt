-- ===== src/Verilator/Trace/Dumps.antt =====
-- What a trace holds.
use koika.Prelude.{
  ℕ, zero, suc, ◌+◌, ◌*◌, ◌%◌, ◌^◌, ◌≡◌, refl, sym, ap, ◌∙◌, arith, Bool, true, false, none, some,
  List, [], ◌∷◌, ◌++◌, inl, inr,
}
use mathlib.Core.List.{append_assoc, append-nil}
use mathlib.Core.Path.{ap₂}
use koika.Prelude.Loop.{iterate, Turns, loop-iterate}
use koika.Verilator.{Dut, Toplevel, clock, reset_signal, eval_dut, tick, toplevel, cli_arguments}
use koika.Verilator.Run.{after_reset, clock_cycle, between}
use koika.Verilator.Trace.{
  Traced, number_of, dump, traced_cycle, traced_reset, trace, main_with_trace,
}

module _ {ℓ} {A : Type ℓ} (dut : Dut A) where
  -- The dump in the middle of a clock cycle that starts at time `t`, the clock being high.
  abbrev pub middle : Bool → ℕ → A → Toplevel A
  middle rst_n t a = record {
    clk = true;
    rst_n = rst_n;
    time = (t + 5) % 2 ^ 64;
    inner = dut.eval true rst_n a;
  }

  -- The two dumps of the cycle in which RST_N is low.
  abbrev pub reset_dumps : A → List (Toplevel A)
  reset_dumps a =
      let low = dut.eval false false a in
      middle false 0 low
      ∷ record { clk = false; rst_n = false; time = 10; inner = after_reset dut a }
      ∷ []

  -- The dumps of `k` clock cycles from time `t` on.
  abbrev pub cycle_dumps : ℕ → ℕ → A → List (Toplevel A)
  cycle_dumps zero t a = []
  cycle_dumps (suc k) t a =
      middle true t a
      ∷ between dut (t + 10) (clock_cycle dut a)
      ∷ cycle_dumps k (t + 10) (clock_cycle dut a)

  traced_cycle-between :
      (t : ℕ) (a : A) (ds : List (Toplevel A))
      → traced_cycle dut (record { top = between dut t a; dumps = ds }) ≡ record {
        top = between dut (t + 10) (clock_cycle dut a);
        dumps = ds ++ (middle true t a ∷ between dut (t + 10) (clock_cycle dut a) ∷ []);
      }
  unfolding traced_cycle tick eval_dut clock
  traced_cycle-between t a ds =
      ap₂ at_times once twice
      ∙ ap
          (λ (l : List (Toplevel A)). record {
            top = between dut (t + 10) (clock_cycle dut a);
            dumps = l;
          })
          (append_assoc ds (middle true t a ∷ []) (between dut (t + 10) (clock_cycle dut a) ∷ []))
    where
      at_times : ℕ → ℕ → Traced A
      at_times u w =
          let last : Toplevel A = record {
            clk = false;
            rst_n = true;
            time = w;
            inner = clock_cycle dut a;
          } in
          record {
            top = last;
            dumps =
                (ds
                  ++ (record { clk = true; rst_n = true; time = u; inner = dut.eval true true a }
                      ∷ []))
                ++ (last ∷ []);
          }

      once : (t % 2 ^ 64 + 5) % 2 ^ 64 ≡ (t + 5) % 2 ^ 64
      once = omega arith

      twice : ((t % 2 ^ 64 + 5) % 2 ^ 64 + 5) % 2 ^ 64 ≡ (t + 10) % 2 ^ 64
      twice = omega arith

  iterate-between :
      (k t : ℕ) (a : A) (ds : List (Toplevel A))
      → iterate (traced_cycle dut) k (record { top = between dut t a; dumps = ds }) ≡ record {
        top = between dut (t + k * 10) (iterate (clock_cycle dut) k a);
        dumps = ds ++ cycle_dumps k t a;
      }
  iterate-between zero t a ds =
      ap₂ (λ u (l : List (Toplevel A)). record { top = between dut u a; dumps = l }) (omega arith)
        (sym (append-nil ds))
  iterate-between (suc k) t a ds =
      ap (iterate (traced_cycle dut) k) (traced_cycle-between t a ds)
      ∙ iterate-between k (t + 10) (clock_cycle dut a) _
      ∙ ap₂
          (λ u (l : List (Toplevel A)). record {
            top = between dut u (iterate (clock_cycle dut) k (clock_cycle dut a));
            dumps = l;
          })
          (omega arith)
          (append_assoc ds (middle true t a ∷ between dut (t + 10) (clock_cycle dut a) ∷ []) _)

  traced_reset-between :
      (clk rst_n : Bool) (init : A)
      → traced_reset dut (record { top = toplevel clk rst_n init; dumps = [] })
        ≡ record { top = between dut 10 (after_reset dut init); dumps = reset_dumps init }
  unfolding traced_reset tick eval_dut clock reset_signal
  traced_reset-between clk rst_n init = refl

  -- What a trace of `k` clock cycles holds.
  abbrev pub traced_object : ℕ → A → Traced A
  traced_object k init =
      let last : Toplevel A =
        between dut (10 + k * 10) (iterate (clock_cycle dut) k (after_reset dut init)) in
      record {
        top = last;
        dumps = (reset_dumps init ++ cycle_dumps k 10 (after_reset dut init)) ++ (last ∷ []);
      }

  trace_lem :
      (clk rst_n : Bool) (init : A) (ncycles : ℕ)
      → (k : ℕ) × (trace dut ncycles (toplevel clk rst_n init) ≡ traced_object k init)
        × Turns dut.got_finish (clock_cycle dut) ncycles (after_reset dut init) k
  unfolding trace
  trace_lem clk rst_n init ncycles =
      let (k, ran, (few, before, why)) =
        loop-iterate (λ (t : Traced A). dut.got_finish t.top.inner) (traced_cycle dut) ncycles
          (traced_reset dut start) in
      (
        k,
        ap (dump dut) (ran ∙ reached k),
        (
          few,
          λ j h. sym (finishes j) ∙ before j h,
          elim why [ inl all ↦ inl all | inr stopped ↦ inr (sym (finishes k) ∙ stopped) ],
        ),
      )
    where
      start : Traced A
      start = record { top = toplevel clk rst_n init; dumps = [] }

      reached :
          (k : ℕ)
          → iterate (traced_cycle dut) k (traced_reset dut start) ≡ record {
            top = between dut (10 + k * 10) (iterate (clock_cycle dut) k (after_reset dut init));
            dumps = reset_dumps init ++ cycle_dumps k 10 (after_reset dut init);
          }
      reached k =
          ap (iterate (traced_cycle dut) k) (traced_reset-between clk rst_n init)
          ∙ iterate-between k 10 (after_reset dut init) (reset_dumps init)

      finishes :
          (k : ℕ)
          → dut.got_finish (iterate (traced_cycle dut) k (traced_reset dut start)).top.inner
            ≡ dut.got_finish (iterate (clock_cycle dut) k (after_reset dut init))
      finishes k = ap (λ (t : Traced A). dut.got_finish t.top.inner) (reached k)

  -- Whatever the signals are at first: without a path for the trace, the program exits with 1 and does
  -- not touch the design. With one it exits with 0, after clocking the design up to the first state in
  -- which it has called `$finish`, or for the number of cycles given. The trace holds the design in
  -- the middle and at the end of each cycle, that of the reset included, at times 5, 10, 15 and so on
  -- modulo `2 ^ 64`, and the last state once more.
  pub main_with_trace_lem :
      (clk rst_n : Bool) (init : A) (args : List (List ℕ))
      → ((cli_arguments args).1 ≡ none
          → main_with_trace dut args (toplevel clk rst_n init) ≡ (1, none))
        × ((path : List ℕ)
            → (cli_arguments args).1 ≡ some path
            → (k : ℕ) × (main_with_trace dut args (toplevel clk rst_n init)
                ≡ (0, some (traced_object k init)))
              × Turns dut.got_finish
                  (clock_cycle dut)
                  (number_of (cli_arguments args).0)
                  (after_reset dut init)
                  k)
  unfolding main_with_trace
  main_with_trace_lem clk rst_n init args = (λ e. rw e refl, traced)
    where
      traced :
          (path : List ℕ)
          → (cli_arguments args).1 ≡ some path
          → (k : ℕ) × (main_with_trace dut args (toplevel clk rst_n init)
              ≡ (0, some (traced_object k init)))
            × Turns dut.got_finish
                (clock_cycle dut)
                (number_of (cli_arguments args).0)
                (after_reset dut init)
                k
      traced path e =
          let (k, same, turns) = trace_lem clk rst_n init (number_of (cli_arguments args).0) in
          (k, rw e (ap (λ (t : Traced A). (0, some t)) same), turns)
