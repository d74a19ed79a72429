-- ===== src/Elf.antt =====
-- ELF files as the loaders of the RISC-V examples read them: `ElfFile` of
-- examples/rv/tests/elf2hex/ElfFile.cpp. The layouts are those of the structs in <elf.h>, on a
-- little-endian host.
pub mod Sections
pub mod InFile
pub mod Load
pub mod SmallFile
mod Examples
use koika.Prelude.{
  ℕ, zero, suc, ◌+◌, ◌*◌, ◌%◌, ◌^◌, Bool, true, false, ◌&&◌, ◌||◌, not, Option, none, some, List,
  [], ◌∷◌, ltb, leb, ◌==◌, if◌then◌else◌, ◌>>=◌,
}

-- `elf_data` and `elf_size`.
pub record Image : Type 0 where
  pub elf_size : ℕ
  pub byte_at : ℕ → ℕ

unfoldable pub little_endian : (ℕ → ℕ) → ℕ → ℕ → ℕ
little_endian byte_at zero off = 0
little_endian byte_at (suc n) off = byte_at off + 256 * little_endian byte_at n (suc off)

-- A field of `width` bytes. A read that leaves the buffer is undefined: `none`.
unfoldable pub field : Image → ℕ → ℕ → Option ℕ
field image width off =
    if leb (off + width) image.elf_size then some (little_endian image.byte_at width off) else none

-- Where `Elf_Ehdr` and `Elf_Phdr` keep the fields that the loaders read.
pub record Layout : Type 0 where
  pub word_bytes : ℕ
  pub e_phoff : ℕ
  pub e_phnum : ℕ
  pub phdr_size : ℕ
  pub p_offset : ℕ
  pub p_paddr : ℕ
  pub p_filesz : ℕ
  pub p_memsz : ℕ

abbrev pub elf32 : Layout
elf32 = record {
  word_bytes = 4;
  e_phoff = 28;
  e_phnum = 44;
  phdr_size = 32;
  p_offset = 4;
  p_paddr = 12;
  p_filesz = 16;
  p_memsz = 20;
}

abbrev pub elf64 : Layout
elf64 = record {
  word_bytes = 8;
  e_phoff = 32;
  e_phnum = 56;
  phdr_size = 56;
  p_offset = 8;
  p_paddr = 24;
  p_filesz = 32;
  p_memsz = 40;
}

-- `sizeof(Elf32_Ehdr)`
abbrev pub ehdr32_size : ℕ
ehdr32_size = 52

pub record Phdr : Type 0 where
  pub p_type : ℕ
  pub p_offset : ℕ
  pub p_paddr : ℕ
  pub p_filesz : ℕ
  pub p_memsz : ℕ

-- `ElfFile::Section`, with the offset that `data` has in the image.
pub record Section : Type 0 where
  pub base : ℕ
  pub section_size : ℕ
  pub data_size : ℕ
  pub data_offset : ℕ

unfoldable pub read_phdr : Image → Layout → ℕ → Option Phdr
read_phdr image layout at = do
  p_type ← field image 4 at
  p_offset ← field image layout.word_bytes (at + layout.p_offset)
  p_paddr ← field image layout.word_bytes (at + layout.p_paddr)
  p_filesz ← field image layout.word_bytes (at + layout.p_filesz)
  p_memsz ← field image layout.word_bytes (at + layout.p_memsz)
  some (record {
    p_type = p_type;
    p_offset = p_offset;
    p_paddr = p_paddr;
    p_filesz = p_filesz;
    p_memsz = p_memsz;
  })

-- `p_type == PT_LOAD && p_memsz > 0`
abbrev pub is_loaded : Phdr → Bool
is_loaded phdr = phdr.p_type == 1 && ltb 0 phdr.p_memsz

-- The sum wraps around at the width of the fields.
abbrev overflows : Layout → Image → Phdr → Bool
overflows layout image phdr =
    ltb 0 phdr.p_filesz
    && ltb image.elf_size ((phdr.p_offset + phdr.p_filesz) % 2 ^ (8 * layout.word_bytes))

abbrev pub section_of : Phdr → Section
section_of phdr = record {
  base = phdr.p_paddr;
  section_size = phdr.p_memsz;
  data_size = phdr.p_filesz;
  data_offset = phdr.p_offset;
}

-- Whether the loop returns false at a header.
abbrev pub is_rejected : Layout → Image → Phdr → Bool
is_rejected layout image phdr = ltb phdr.p_memsz phdr.p_filesz || overflows layout image phdr

-- What the loop finds: an error (`return false`), or the sections.
pub data Loaded : Type 0 where
  failed : Loaded
  sections : List Section → Loaded

abbrev push : Section → Loaded → Loaded
push s Loaded.failed = Loaded.failed
push s (Loaded.sections ss) = Loaded.sections (s ∷ ss)

-- The body of the loop, by whether the header is to be loaded and whether it is rejected; `later` is
-- what the rest of the loop gives.
abbrev pub visit : Bool → Bool → Section → Option Loaded → Option Loaded
visit false rejected s later = later
visit true true s later = some Loaded.failed
visit true false s later = do loaded ← later; some (push s loaded)

-- The loop over the `n` headers from number `i` on.
unfoldable pub load_loop : Image → Layout → ℕ → ℕ → ℕ → Option Loaded
load_loop image layout phoff zero i = some (Loaded.sections [])
load_loop image layout phoff (suc n) i = do
  phdr ← read_phdr image layout (phoff + i * layout.phdr_size)
  visit (is_loaded phdr) (is_rejected layout image phdr) (section_of phdr)
      (load_loop image layout phoff n (suc i))

-- The loop, unless the table is larger than the file; its size is computed in 64 bits.
unfoldable pub load_table : Image → Layout → ℕ → ℕ → Option Loaded
load_table image layout phoff phnum =
    if ltb image.elf_size ((phoff + phnum * layout.phdr_size) % 2 ^ 64)
    then some Loaded.failed
    else load_loop image layout phoff phnum 0

-- `finishLoad`
unfoldable pub finish_load : Image → Layout → Option Loaded
finish_load image layout = do
  phoff ← field image layout.word_bytes layout.e_phoff
  phnum ← field image 2 layout.e_phnum
  load_table image layout phoff phnum

abbrev pub has_magic : Image → Bool
has_magic image =
    image.byte_at 0 == 0x7f
    && image.byte_at 1 == 0x45
    && image.byte_at 2 == 0x4c
    && image.byte_at 3 == 0x46

-- `open`, on the bytes of the file.
unfoldable pub open_elf : Image → Option Loaded
open_elf image =
    if ltb image.elf_size ehdr32_size
    then some Loaded.failed
    else if not (has_magic image)
    then some Loaded.failed
    else if image.byte_at 4 == 1
    then finish_load image elf32
    else if image.byte_at 4 == 2
    then finish_load image elf64
    else some Loaded.failed
