-- ===== src/Elf/SmallFile.antt =====
-- A small 32-bit file with one segment, on which runs of the loaders are tried.
use koika.Prelude.{ℕ, ◌==◌, some, [], ◌∷◌, ◌≡◌, refl, arith, if◌then◌else◌}
use koika.Elf.{
  Image, Phdr, Section, Loaded, little_endian, field, read_phdr, elf32, load_loop, load_table,
  finish_load, open_elf,
}
use koika.Elf.Sections.{AreBytes, headers}

-- The nonzero bytes: the identification, e_phoff and e_phnum, the header at 52, and the data at 84.
abbrev pub file_byte : ℕ → ℕ
file_byte i =
    if i == 0
    then 0x7f
    else if i == 1
    then 0x45
    else if i == 2
    then 0x4c
    else if i == 3
    then 0x46
    else if i == 4
    then 1
    else if i == 28
    then 52
    else if i == 44
    then 1
    else if i == 52
    then 1
    else if i == 56
    then 84
    else if i == 64
    then 8
    else if i == 68
    then 4
    else if i == 72
    then 8
    else if i == 85
    then 0xAB
    else 0

abbrev pub file : Image
file = record { elf_size = 96; byte_at = file_byte }

pub file_byte-AreBytes : AreBytes file_byte
file_byte-AreBytes i = ground arith

abbrev pub segment : Phdr
segment = record { p_type = 1; p_offset = 84; p_paddr = 8; p_filesz = 4; p_memsz = 8 }

pub read_table : headers file elf32 52 1 0 ≡ some (segment ∷ [])
unfolding headers read_phdr field little_endian
read_table = refl

pub read_phoff : field file 4 28 ≡ some 52
unfolding field little_endian
read_phoff = refl

pub read_phnum : field file 2 44 ≡ some 1
unfolding field little_endian
read_phnum = refl

abbrev pub text : Section
text = record { base = 8; section_size = 8; data_size = 4; data_offset = 84 }

pub opened : open_elf file ≡ some (Loaded.sections (text ∷ []))
unfolding open_elf finish_load load_table load_loop read_phdr field little_endian
opened = refl
