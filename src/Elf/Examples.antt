-- ===== src/Elf/Examples.antt =====
-- The loaders on a small file.
use koika.Prelude.{some, [], ◌∷◌, ◌≡◌, refl, arith, All}
use koika.Elf.{Loaded, open_elf}
use koika.Elf.Sections.{Ends, open_elf-Ends}
use koika.Elf.InFile.{InFile, open_elf-InFile}
use koika.Elf.SmallFile.{
  file, segment, text, opened, file_byte-AreBytes, read_table, read_phoff, read_phnum,
}
use koika.Elf.Load.{Memory, Filled, elf_load}
use koika.Elf.Load.Contents.{Holds, elf_load-Holds}

open_elf-Ends_example : (x : Loaded) × (open_elf file ≡ some x) × Ends file x
open_elf-Ends_example = open_elf-Ends file file_byte-AreBytes refl

open_elf-InFile_example : All (InFile file) (text ∷ [])
open_elf-InFile_example = open_elf-InFile file (text ∷ []) opened

abbrev empty : Memory
empty = record { size = 1024; bytes = λ a. 0 }

elf_load-Holds_example :
    (m : Memory) × (elf_load file empty ≡ some (Filled.filled m))
    × Holds file empty (segment ∷ []) m
elf_load-Holds_example =
    elf_load-Holds file 52 1 (segment ∷ []) empty (omega arith) refl refl read_phoff read_phnum
      (omega arith) read_table ((λ l. (omega arith, omega arith, omega arith)), tt)
