-- ===== src/Hex/Main.antt =====
-- `main` of examples/rv/tests/elf2hex/elf2hex.cpp: from the command line to the lines of the output.
use koika.Prelude.{ℕ, Bool, true, false, Option, none, some, List, [], ◌∷◌, ◌>>=◌}
use koika.Elf.{Image, Loaded, open_elf}
use koika.Hex.{Config, Line, dump_sections}
use koika.Hex.Arguments.{config_of}

-- `exit(1)`, or the lines that are written.
pub data Outcome : Type 0 where
  fails : Outcome
  written : List Line → Outcome

-- The output file is opened once the sections are known.
abbrev pub write : Config → Image → Bool → Loaded → Option Outcome
write c image writable Loaded.failed = some Outcome.fails
write c image false (Loaded.sections ss) = some Outcome.fails
write c image true (Loaded.sections ss) =
    dump_sections c image ss >>= λ lines. some (Outcome.written lines)

-- `elf_file.open`, on the bytes of the file if it can be read.
abbrev pub convert : Config → Option Image → Bool → Option Outcome
convert c none writable = some Outcome.fails
convert c (some image) writable = open_elf image >>= write c image writable

abbrev with_config : Option Config → Option Image → Bool → Option Outcome
with_config none file writable = some Outcome.fails
with_config (some c) file writable = convert c file writable

-- By the files that can be read and those that can be written, and the arguments after the program's
-- name.
unfoldable pub hex_main : (List ℕ → Option Image) → (List ℕ → Bool) → List (List ℕ) → Option Outcome
hex_main files writable (elf ∷ base_address ∷ size ∷ width ∷ hex ∷ []) =
    with_config (config_of base_address size width) (files elf) (writable hex)
hex_main files writable args = some Outcome.fails
