-- ===== src/RvCore/Examples.antt =====
-- The core with a small program, whose rules fetch one word and then finish with code 3.
use koika.Prelude.{
  ℕ, ◌+◌, ◌<◌, ◌≡◌, ◌==◌, refl, arith, true, not, bit_and, some, none, [], ◌∷◌, codes,
}
use koika.Elf.{little_endian}
use koika.Elf.SmallFile.{file, segment, file_byte-AreBytes, read_table, read_phoff, read_phnum}
use koika.Memory.{MemInput}
use koika.Driver.{Design, ext_finish, exit_info_state}
use koika.Driver.Exit.{call}
use koika.Driver.Params.{of_cli-decimal}
use koika.Text.Number.{decimal}
use koika.RvCore.{Core, Setup, Ended, new_core, rv_core, core_main}
use koika.RvCore.Fetch.{Fetches, Reads}
use koika.RvCore.Program.{IsProgram, program_words, rv_core-Reads}
use koika.RvCore.Main.{core_main_lem}

file-IsProgram : IsProgram file (segment ∷ [])
file-IsProgram = record {
  phoff = 52;
  phnum = 1;
  large = omega arith;
  magic = refl;
  class32 = refl;
  at_phoff = read_phoff;
  at_phnum = read_phnum;
  inside = omega arith;
  table = read_table;
  segments = ((λ l. (omega arith, omega arith, omega arith)), tt);
  bytes = file_byte-AreBytes;
}

-- What is in the memories at first.
abbrev old : ℕ → ℕ
old i = 7

abbrev fetch : MemInput
fetch = record {
  get_ready = 1;
  put_valid = 1;
  put_request = record { byte_en = 0; addr = 8; «data» = 0 };
}

abbrev loaded : Core
loaded = new_core (program_words file (segment ∷ []) old) (program_words file (segment ∷ []) old) []

rv_core-Reads_example :
    (rv_core file (new_core old old []) ≡ some (Setup.ready loaded))
    × Reads (program_words file (segment ∷ []) old) (fetch ∷ fetch ∷ [])
rv_core-Reads_example =
    rv_core-Reads file (segment ∷ []) file-IsProgram old old [] (fetch ∷ fetch ∷ [])
      (fetches, (fetches, tt))
  where
    fetches : Fetches fetch
    fetches = record { reads = refl; in_range = omega arith; data_fits = omega arith }

-- The word at address 8: 0xAB is its second byte.
fetched_word : program_words file (segment ∷ []) old 2 ≡ 0xAB00
unfolding little_endian
fetched_word = refl

-- The number of rounds, and the core.
abbrev State : Type 0
State = ℕ × Core

abbrev design : Design State
design = record {
  rules = λ s. ((s.0 + 1, s.1), ext_finish (record { valid = s.0 == 2; «data» = 3 }));
}

core_main_lem_example :
    (((j : ℕ) → j < 9 → call design (0, loaded) j ≡ none)
      → core_main
          (λ fpath. some file)
          design
          (λ core. (0, core))
          0
          (new_core old old [])
          (codes "a" ∷ decimal 9 ∷ [])
        ≡ some (Ended.ended 0 true))
    × ((j config code : ℕ)
        → j < 9
        → ((i : ℕ) → i < j → call design (0, loaded) i ≡ none)
        → call design (0, loaded) j ≡ some (config, code)
        → core_main
            (λ fpath. some file)
            design
            (λ core. (0, core))
            0
            (new_core old old [])
            (codes "a" ∷ decimal 9 ∷ [])
          ≡ some (Ended.ended 0 (not (bit_and config exit_info_state == 0))))
core_main_lem_example =
    core_main_lem (λ fpath. some file) design (λ core. (0, core)) 0 old old [] (codes "a")
      (decimal 9 ∷ []) (record { ncycles = 9; vcd_fpath = codes "a.vcd" }) file (segment ∷ [])
      (0, loaded) (of_cli-decimal (codes "a") 9 (omega arith)) refl file-IsProgram refl

-- The third round finishes with code 3.
third : call design (0, loaded) 2 ≡ some (0, 3)
unfolding ext_finish
third = refl
