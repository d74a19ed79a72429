-- ===== src/Verilator.antt =====
-- The driver of designs that are compiled with Verilator: `Toplevel`, `KoikaToplevel` and
-- `cli_arguments` of ocaml/backends/resources/verilator.hpp. The design itself, `Dut`, is the code that
-- Verilator generates: what `eval` does to it and whether it has called `$finish` are parameters.
pub mod Run
pub mod Trace
pub mod Bench
mod Examples
use koika.Prelude.{
  ℕ, zero, suc, ◌+◌, ◌%◌, ◌^◌, ◌≡◌, Bool, true, false, Option, none, some, List, [], ◌∷◌, ◌==◌,
  if◌then◌else◌,
}
use koika.Prelude.Loop.{loop}

-- `eval` reads the signals CLK and RST_N.
pub record Dut {ℓ} (A : Type ℓ) : Type ℓ where
  pub eval : Bool → Bool → A → A
  pub got_finish : A → Bool

pub record Toplevel {ℓ} (A : Type ℓ) : Type ℓ where
  pub clk : Bool
  pub rst_n : Bool
  pub time : ℕ
  pub inner : A

abbrev timestep : ℕ
timestep = 5

unfoldable pub clock {ℓ} : {A : Type ℓ} → Bool → Toplevel A → Toplevel A
clock up top = record top { clk = up }

unfoldable pub reset_signal {ℓ} : {A : Type ℓ} → Bool → Toplevel A → Toplevel A
reset_signal up top = record top { rst_n = up }

unfoldable pub eval_dut {ℓ} : {A : Type ℓ} → Dut A → Toplevel A → Toplevel A
eval_dut dut top = record top { inner = dut.eval top.clk top.rst_n top.inner }

-- `time` has 64 bits.
unfoldable pub tick {ℓ} : {A : Type ℓ} → Dut A → Bool → Toplevel A → Toplevel A
tick dut up top = eval_dut dut (clock up (record top { time = (top.time + timestep) % 2 ^ 64 }))

unfoldable pub cycle {ℓ} : {A : Type ℓ} → Dut A → Toplevel A → Toplevel A
cycle dut top = tick dut false (tick dut true top)

unfoldable pub reset {ℓ} : {A : Type ℓ} → Dut A → Toplevel A → Toplevel A
reset dut top =
    let low = eval_dut dut (clock false (reset_signal false top)) in
    reset_signal true (cycle dut (record low { time = 0 }))

unfoldable pub run {ℓ} : {A : Type ℓ} → Dut A → ℕ → Toplevel A → Toplevel A
run dut ncycles top = loop (λ t. dut.got_finish t.inner) (cycle dut) ncycles (reset dut top)

-- The constructor leaves the signals as the design has them.
abbrev pub toplevel {ℓ} : {A : Type ℓ} → Bool → Bool → A → Toplevel A
toplevel clk rst_n init = record { clk = clk; rst_n = rst_n; time = 0; inner = init }

-- `argv[offset][0] == '+'`; a string is the list of its characters.
abbrev starts_with_plus : List ℕ → Bool
starts_with_plus [] = false
starts_with_plus (c ∷ cs) = c == 0x2b

-- The arguments from `offset` on, after those that are Verilator's own.
unfoldable pub skip_plus : List (List ℕ) → List (List ℕ)
skip_plus [] = []
skip_plus (arg ∷ args) = if starts_with_plus arg then skip_plus args else arg ∷ args

abbrev pub first {ℓ} : {A : Type ℓ} → List A → Option A
first [] = none
first (x ∷ xs) = some x

abbrev pub second {ℓ} : {A : Type ℓ} → List A → Option A
second [] = none
second (x ∷ xs) = first xs

-- The strings of `ncycles` and `vcd_fpath`, where they are given, from the arguments after the
-- program's name.
unfoldable pub cli_arguments : List (List ℕ) → Option (List ℕ) × Option (List ℕ)
cli_arguments args = (first (skip_plus args), second (skip_plus args))
