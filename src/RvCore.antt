-- ===== src/RvCore.antt =====
-- The simulated RISC-V core: `extfuns_t`, `bram::read_elf`, the constructor of `rv_core` and `main` of
-- examples/rv/etc/rvcore.cuttlesim.cpp, with `elf_load` on the words of a memory, on a little-endian
-- host.
pub mod Words
pub mod Fetch
pub mod Program
pub mod Main
mod Examples
use koika.Prelude.{
  ℕ, ◌+◌, ◌*◌, ◌/◌, ◌%◌, ◌^◌, Bool, true, false, Option, none, some, List, [], ◌∷◌, ◌>>=◌,
}
use koika.Elf.{Image, little_endian}
use koika.Elf.Load.{Memory, Filled, elf_load}
use koika.Memory.{Bram, MemInput, MemOutput, dmem_size, getput}
use koika.Driver.{Devices, Design, main}
use koika.Driver.Params.{Params, of_cli}

pub record Core : Type 0 where
  pub dmem : Bram
  pub imem : Bram
  pub devices : Devices

-- `bram()` and `extfuns_t()`, by what `new` leaves in the arrays and by the input to come.
abbrev pub new_bram : (ℕ → ℕ) → Bram
new_bram mem = record { mem = mem; last = none }

abbrev pub new_core : (ℕ → ℕ) → (ℕ → ℕ) → List ℕ → Core
new_core dmem imem input = record {
  dmem = new_bram dmem;
  imem = new_bram imem;
  devices = record { led = 0; printed = []; input = input };
}

unfoldable pub ext_mem_dmem : Core → MemInput → Option (MemOutput × Core)
ext_mem_dmem core req = getput core.dmem req >>= λ r. some (r.0, record core { dmem = r.1 })

unfoldable pub ext_mem_imem : Core → MemInput → Option (MemOutput × Core)
ext_mem_imem core req = getput core.imem req >>= λ r. some (r.0, record core { imem = r.1 })

-- The bytes of the words of a memory, and the words of bytes.
abbrev pub bytes_of : (ℕ → ℕ) → Memory
bytes_of mem = record { size = 4 * dmem_size; bytes = λ a. mem (a / 4) / 2 ^ (8 * (a % 4)) % 2 ^ 8 }

abbrev pub word_at : (ℕ → ℕ) → ℕ → ℕ
word_at bytes i = little_endian bytes 4 (4 * i)

-- `exit(1)`, or what has been set up.
pub data Setup {ℓ} (A : Type ℓ) : Type ℓ where
  exited : Setup A
  ready : A → Setup A

abbrev pub filled_bram : Bram → Filled → Setup Bram
filled_bram b Filled.exited = Setup.exited
filled_bram b (Filled.filled m) = Setup.ready (record b { mem = word_at m.bytes })

unfoldable pub read_elf : Image → Bram → Option (Setup Bram)
read_elf image b = elf_load image (bytes_of b.mem) >>= λ f. some (filled_bram b f)

-- The constructor of `rv_core`: the instructions first.
abbrev with_dmem : Core → Setup Bram → Setup Core
with_dmem core Setup.exited = Setup.exited
with_dmem core (Setup.ready b) = Setup.ready (record core { dmem = b })

abbrev with_imem : Image → Core → Setup Bram → Option (Setup Core)
with_imem image core Setup.exited = some Setup.exited
with_imem image core (Setup.ready b) =
    read_elf image core.dmem >>= λ d. some (with_dmem (record core { imem = b }) d)

unfoldable pub rv_core : Image → Core → Option (Setup Core)
rv_core image core = read_elf image core.imem >>= with_imem image core

-- How the program ends: with an exit code, and whether the state has been printed; or by an exception.
pub data Ended : Type 0 where
  ended : ℕ → Bool → Ended
  aborted : Ended

-- `main`, by the files that can be read, the rules of the design, and its state by its external
-- functions. The value of `cuttlesim::main` is not used: the program's exit code is 0.
abbrev ran {ℓ} : {A : Type ℓ} → Design A → (Core → A) → ℕ → ℕ → Setup Core → Ended
ran design module_rv32 cycle_id ncycles Setup.exited = Ended.ended 1 false
ran design module_rv32 cycle_id ncycles (Setup.ready core) =
    Ended.ended 0 (main design (module_rv32 core) cycle_id (some ncycles)).0

-- A file that cannot be read makes `elf_load` exit.
abbrev with_file {ℓ} :
    {A : Type ℓ} → Design A → (Core → A) → ℕ → ℕ → Core → Option Image → Option Ended
with_file design module_rv32 cycle_id ncycles core none =
    some (ran design module_rv32 cycle_id ncycles Setup.exited)
with_file design module_rv32 cycle_id ncycles core (some image) =
    rv_core image core >>= λ s. some (ran design module_rv32 cycle_id ncycles s)

abbrev with_params {ℓ} :
    {A : Type ℓ} → Design A → (Core → A) → ℕ → Option Image → Core → Option Params → Option Ended
with_params design module_rv32 cycle_id file core none = some Ended.aborted
with_params design module_rv32 cycle_id file core (some params) =
    with_file design module_rv32 cycle_id params.ncycles core file

unfoldable pub core_main {ℓ} :
    {A : Type ℓ}
    → (List ℕ → Option Image)
    → Design A
    → (Core → A)
    → ℕ
    → Core
    → List (List ℕ)
    → Option Ended
core_main files design module_rv32 cycle_id core [] = some (Ended.ended 1 false)
core_main files design module_rv32 cycle_id core (fpath ∷ args) =
    with_params design module_rv32 cycle_id (files fpath) core (of_cli fpath args)
