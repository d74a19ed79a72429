-- ===== src/RvCore/Program.antt =====
-- The core with a program.
use mathlib.Core.Path.{fun_ext}
use koika.Prelude.{
  ℕ, ◌+◌, ◌*◌, ◌≤◌, ◌<◌, ◌≡◌, refl, ap, arith, true, Option, none, some, List, All, ◌==◌,
}
use koika.Elf.{Image, Phdr, field, elf32, has_magic}
use koika.Elf.Sections.{AreBytes, headers, little_endian-lt}
use koika.Elf.Load.Contents.{Fits, byte_of, last_covering, elf_load-Holds}
use koika.Memory.{MemInput, dmem_size}
use koika.RvCore.{Setup, new_bram, new_core, bytes_of, word_at, read_elf, rv_core}
use koika.RvCore.Words.{Words}
use koika.RvCore.Fetch.{Fetches, Reads, run_memory-Reads}

-- A 32-bit file whose program headers can be read, and whose loaded segments fit the memories.
pub record IsProgram (image : Image) (phdrs : List Phdr) : Type 0 where
  pub phoff : ℕ
  pub phnum : ℕ
  pub large : 52 ≤ image.elf_size
  pub magic : has_magic image ≡ true
  pub class32 : (image.byte_at 4 == 1) ≡ true
  pub at_phoff : field image 4 28 ≡ some phoff
  pub at_phnum : field image 2 44 ≡ some phnum
  pub inside : phoff + phnum * 32 ≤ image.elf_size
  pub table : headers image elf32 phoff phnum 0 ≡ some phdrs
  pub segments : All (Fits image (4 * dmem_size)) phdrs
  pub bytes : AreBytes image.byte_at

-- The words of a memory after the file has been loaded over old words: each byte is that of the last
-- loaded segment that covers it.
abbrev pub program_words : Image → List Phdr → (ℕ → ℕ) → ℕ → ℕ
program_words image phdrs old =
    word_at (λ a. byte_of image (bytes_of old).bytes a (last_covering phdrs a))

byte_of-lt :
    (image : Image) (old : ℕ → ℕ) (a : ℕ) (o : Option Phdr)
    → AreBytes image.byte_at
    → byte_of image (bytes_of old).bytes a o < 256
byte_of-lt image old a none h = omega arith
byte_of-lt image old a (some phdr) h = h _

program_words-Words :
    (image : Image) (phdrs : List Phdr) (old : ℕ → ℕ)
    → AreBytes image.byte_at
    → Words (program_words image phdrs old)
program_words-Words image phdrs old h i =
    little_endian-lt _ 4 (4 * i) (λ a. byte_of-lt image old a (last_covering phdrs a) h)

module _ (image : Image) (phdrs : List Phdr) (p : IsProgram image phdrs) where
  read_elf_lem :
      (old : ℕ → ℕ)
      → read_elf image (new_bram old)
        ≡ some (Setup.ready (new_bram (program_words image phdrs old)))
  unfolding read_elf
  read_elf_lem old =
      let (m, ran, (size, bytes)) =
        elf_load-Holds image p.phoff p.phnum phdrs (bytes_of old) p.large p.magic p.class32
          p.at_phoff p.at_phnum p.inside p.table p.segments in
      rw ran (ap (λ (f : ℕ → ℕ). some (Setup.ready (new_bram (word_at f)))) (fun_ext bytes))

  pub rv_core_lem :
      (dmem imem : ℕ → ℕ) (input : List ℕ)
      → rv_core image (new_core dmem imem input)
        ≡ some (
            Setup.ready
              (new_core (program_words image phdrs dmem) (program_words image phdrs imem) input))
  unfolding rv_core
  rv_core_lem dmem imem input = rw (read_elf_lem imem, read_elf_lem dmem) refl

  -- For a 32-bit file whose program headers can be read and whose loaded segments fit the memories,
  -- and whatever is in the memories at first: the constructor of `rv_core` sets up both of them, with
  -- the bytes of the last loaded segment that covers each address, and no request waiting. From there,
  -- any number of calls of `getput` on the instructions, each with a request that reads inside the
  -- memory, returns: the accepted requests are those that have been answered, in order, and then the
  -- one that waits, if any; each answer has the program's word, and the words stay.
  pub rv_core-Reads :
      (dmem imem : ℕ → ℕ) (input : List ℕ) (reqs : List MemInput)
      → All Fetches reqs
      → (rv_core image (new_core dmem imem input)
          ≡ some (
              Setup.ready
                (new_core (program_words image phdrs dmem) (program_words image phdrs imem) input)))
        × Reads (program_words image phdrs imem) reqs
  rv_core-Reads dmem imem input reqs h = (
    rv_core_lem dmem imem input,
    run_memory-Reads _ reqs (program_words-Words image phdrs imem p.bytes) h,
  )
