-- ===== src/Elf/Load.antt =====
-- `elf_load` of examples/rv/etc/elf.hpp, which copies the segments of a 32-bit file into the memory of
-- a simulator.
pub mod Contents
use koika.Prelude.{
  ℕ, zero, suc, ◌+◌, ◌-◌, ◌*◌, ◌/◌, ◌%◌, ◌^◌, Bool, true, false, ◌&&◌, not, Option, none, some, ltb,
  leb, ◌==◌, if◌then◌else◌, ◌>>=◌,
}
use koika.Elf.{Image, Phdr, field, elf32, ehdr32_size, read_phdr, is_loaded, has_magic}

-- The bytes of `dmem`, and how many there are.
pub record Memory : Type 0 where
  pub size : ℕ
  pub bytes : ℕ → ℕ

-- The byte address of `dmem[p_paddr >> 2]`.
abbrev pub target : Phdr → ℕ
target phdr = phdr.p_paddr / 2 ^ 2 * 4

abbrev pub covers : Phdr → ℕ → Bool
covers phdr a = leb (target phdr) a && ltb a (target phdr + phdr.p_filesz)

abbrev pub source_byte : Image → Phdr → ℕ → ℕ
source_byte image phdr a = image.byte_at (phdr.p_offset + (a - target phdr))

-- `memcpy`; beyond the file or the memory it is undefined.
unfoldable pub copy_segment : Image → Phdr → Memory → Option Memory
copy_segment image phdr mem =
    if leb (phdr.p_offset + phdr.p_filesz) image.elf_size
      && leb (target phdr + phdr.p_filesz) mem.size
    then some (record mem {
      bytes = λ a. if covers phdr a then source_byte image phdr a else mem.bytes a;
    })
    else none

-- `exit(1)`, or the memory that is left.
pub data Filled : Type 0 where
  exited : Filled
  filled : Memory → Filled

-- The body of the loop for a header that is to be loaded. Of its two checks the second, on the end of
-- the segment in the file, prints a message only.
unfoldable pub fill_segment : Image → Phdr → Memory → (Memory → Option Filled) → Option Filled
fill_segment image phdr mem later =
    if ltb phdr.p_memsz phdr.p_filesz
    then some Filled.exited
    else copy_segment image phdr mem >>= later

unfoldable pub fill_loop : Image → ℕ → ℕ → ℕ → Memory → Option Filled
fill_loop image phoff zero i mem = some (Filled.filled mem)
fill_loop image phoff (suc n) i mem = do
  phdr ← read_phdr image elf32 (phoff + i * 32)
  if is_loaded phdr
      then fill_segment image phdr mem (fill_loop image phoff n (suc i))
      else fill_loop image phoff n (suc i) mem

unfoldable pub fill_table : Image → ℕ → ℕ → Memory → Option Filled
fill_table image phoff phnum mem =
    if ltb image.elf_size (phoff + phnum * 32)
    then some Filled.exited
    else fill_loop image phoff phnum 0 mem

unfoldable pub fill : Image → Memory → Option Filled
fill image mem = do
  phoff ← field image 4 28
  phnum ← field image 2 44
  fill_table image phoff phnum mem

unfoldable pub elf_load : Image → Memory → Option Filled
elf_load image mem =
    if ltb image.elf_size ehdr32_size
    then some Filled.exited
    else if not (has_magic image)
    then some Filled.exited
    else if image.byte_at 4 == 1
    then fill image mem
    else some Filled.exited
