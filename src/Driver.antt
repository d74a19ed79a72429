-- ===== src/Driver.antt =====
-- The drivers of a simulator: `sim_metadata`, `snapshot_t` and `init_and_run` of
-- ocaml/backends/resources/cuttlesim.hpp, the functions `run`, `finish` and `snapshot` that
-- ocaml/backends/cpp.ml generates for every design, and the external functions that
-- examples/rv/etc/rvcore.cuttlesim.cpp gives to the RISC-V core.
pub mod Exit
pub mod Params
pub mod Extfuns
pub mod Trace
pub mod Resume
pub mod Schedule
mod Examples
use koika.Prelude.{
  ℕ, zero, suc, ◌+◌, ◌%◌, ◌^◌, ◌≡◌, Bool, true, false, not, Option, none, some, List, [], ◌∷◌, ◌++◌,
  bit_and, ◌==◌, of_bool, if◌then◌else◌,
}
use koika.Prelude.Loop.{loop}

-- `exit_info_none` and `exit_info_state`
abbrev exit_info_none : ℕ
exit_info_none = 0

abbrev pub exit_info_state : ℕ
exit_info_state = 2

pub record Metadata : Type 0 where
  pub finished : Bool
  pub exit_code : ℕ
  pub exit_config : ℕ
  pub cycle_id : ℕ

-- The constructor leaves `cycle_id` as it is.
abbrev pub initial_meta : ℕ → Metadata
initial_meta cycle_id = record {
  finished = false;
  exit_code = 0;
  exit_config = exit_info_state;
  cycle_id = cycle_id;
}

-- A simulator: the state of the design, with what surrounds it, and the metadata.
pub record Simulator {ℓ} (A : Type ℓ) : Type ℓ where
  pub state : A
  pub meta : Metadata

abbrev pub finished {ℓ} : {A : Type ℓ} → Simulator A → Bool
finished sim = sim.meta.finished

unfoldable pub finish : ℕ → ℕ → Metadata → Metadata
finish exit_config exit_code meta = record meta {
  finished = true;
  exit_config = exit_config;
  exit_code = exit_code;
}

-- The rules of a design, the external functions included: what they leave of the state, and the exit
-- code if they have called `finish`.
pub record Design {ℓ} (A : Type ℓ) : Type ℓ where
  pub rules : A → A × Option (ℕ × ℕ)

abbrev pub apply_finish : Option (ℕ × ℕ) → Metadata → Metadata
apply_finish none meta = meta
apply_finish (some (exit_config, exit_code)) meta = finish exit_config exit_code meta

-- `cycle`: a new number, and the rules.
unfoldable pub cycle {ℓ} : {A : Type ℓ} → Design A → Simulator A → Simulator A
cycle design sim = record {
  state = (design.rules sim.state).0;
  meta =
      apply_finish (design.rules sim.state).1
        (record sim.meta { cycle_id = (sim.meta.cycle_id + 1) % 2 ^ 64 });
}

-- `run`
unfoldable pub run_cycles {ℓ} : {A : Type ℓ} → Design A → ℕ → Simulator A → Simulator A
run_cycles design ncycles sim = loop finished (cycle design) ncycles sim

-- `simulator(args…).run(ncycles).snapshot()`
unfoldable pub init_and_run {ℓ} : {A : Type ℓ} → Design A → A → ℕ → ℕ → Simulator A
init_and_run design init cycle_id ncycles =
    run_cycles design ncycles (record { state = init; meta = initial_meta cycle_id })

-- `report`: whether the state is printed, and the exit code.
unfoldable pub report {ℓ} : {A : Type ℓ} → Simulator A → Bool × ℕ
report snapshot =
    (not (bit_and snapshot.meta.exit_config exit_info_state == 0), snapshot.meta.exit_code)

-- `params::ncycles`, by the number that the command line gives, if it does.
unfoldable pub ncycles_of : Option ℕ → ℕ
ncycles_of none = 1000
ncycles_of (some n) = n

-- `main`, without tracing or randomization.
unfoldable pub main {ℓ} : {A : Type ℓ} → Design A → A → ℕ → Option ℕ → Bool × ℕ
main design init cycle_id argument =
    report (init_and_run design init cycle_id (ncycles_of argument))

-- A request to a device: `struct_maybe_bits_8` and `struct_maybe_bits_1`.
pub record Maybe : Type 0 where
  pub valid : Bool
  pub «data» : ℕ

-- The LED, the characters printed, and those still to be read.
pub record Devices : Type 0 where
  pub led : ℕ
  pub printed : List ℕ
  pub input : List ℕ

unfoldable pub ext_led : Devices → Maybe → ℕ × Devices
ext_led d req = (d.led, if req.valid then record d { led = req.«data» } else d)

unfoldable pub ext_uart_write : Devices → Maybe → Bool × Devices
ext_uart_write d req =
    (req.valid, if req.valid then record d { printed = d.printed ++ (req.«data» ∷ []) } else d)

-- `(bits_t<8>) getchar()`: at the end of the input -1, which the cast makes 255.
unfoldable pub ext_uart_read : Devices → Bool → Maybe × Devices
ext_uart_read d false = (record { valid = false; «data» = 0 }, d)
ext_uart_read d true = elim d.input [
  | [] ↦ (record { valid = true; «data» = 255 }, d)
  | c ∷ cs ↦ (record { valid = true; «data» = c % 2 ^ 8 }, record d { input = cs })
]

-- The arguments of `finish`, if the request is valid.
unfoldable pub ext_finish : Maybe → Option (ℕ × ℕ)
ext_finish req = if req.valid then some (exit_info_none, req.«data») else none
