-- ===== src/Elf/InFile.antt =====
-- The sections that `open` gives lie in the file.
use mathlib.Core.Path.{subst}
use native.Mathlib.Nat.{mod-eq_of_lt}
use koika.Prelude.{
  ℕ, zero, suc, ◌+◌, ◌*◌, ◌%◌, ◌^◌, ◌≤◌, ◌<◌, ◌≡◌, refl, arith, Bool, true, false, not, Option,
  none, some, List, ◌∷◌, All, ltb, ◌==◌, if◌then◌else◌, >>=-eq-some, some_inj, inl, inr, ◌⊎◌,
}
use koika.Elf.{
  Image, Layout, Phdr, Section, Loaded, field, elf32, elf64, ehdr32_size, read_phdr, is_loaded,
  is_rejected, section_of, visit, load_loop, load_table, finish_load, open_elf, has_magic,
}

-- A section has room for its data, and its data lies in the file unless its end wraps around.
abbrev pub InFile : Image → Section → Type 0
InFile image s =
    (0 < s.section_size)
    × (s.data_size ≤ s.section_size)
    × (0 < s.data_size
        → s.data_offset + s.data_size < 2 ^ 32
        → s.data_offset + s.data_size ≤ image.elf_size)

sections_inj : {ss ts : List Section} → Loaded.sections ss ≡ Loaded.sections ts → ss ≡ ts
sections_inj h = cc

-- How the body of the loop can end with sections.
visit_cases :
    (l r : Bool) (s : Section) (later : Option Loaded) (ss : List Section)
    → visit l r s later ≡ some (Loaded.sections ss)
    → (later ≡ some (Loaded.sections ss))
      ⊎ ((l ≡ true)
          × (r ≡ false)
          × ((ts : List Section) × (later ≡ some (Loaded.sections ts)) × (s ∷ ts ≡ ss)))
visit_cases false r s later ss e = inl e
visit_cases true true s later ss e = cc
visit_cases true false s none ss e = cc
visit_cases true false s (some Loaded.failed) ss e = cc
visit_cases true false s (some (Loaded.sections ts)) ss e =
    inr (refl, refl, (ts, refl, sections_inj (some_inj e)))

-- The layouts of both classes have words of 32 bits or more.
abbrev IsWide : Layout → Type 0
IsWide layout = 2 ^ 32 ≤ 2 ^ (8 * layout.word_bytes)

section_of-InFile :
    (layout : Layout) (image : Image) (phdr : Phdr)
    → IsWide layout
    → is_loaded phdr ≡ true
    → is_rejected layout image phdr ≡ false
    → InFile image (section_of phdr)
section_of-InFile layout image phdr w l r = (
  ground (arith, l),
  ground (arith, r),
  λ pos small. inside pos (mod-eq_of_lt (omega (arith, w, small))),
)
  where
    inside :
        0 < phdr.p_filesz
        → (phdr.p_offset + phdr.p_filesz) % 2 ^ (8 * layout.word_bytes)
          ≡ phdr.p_offset + phdr.p_filesz
        → phdr.p_offset + phdr.p_filesz ≤ image.elf_size
    inside pos same = ground (arith, r, same)

load_loop-InFile :
    (image : Image) (layout : Layout) (phoff n i : ℕ) (ss : List Section)
    → IsWide layout
    → load_loop image layout phoff n i ≡ some (Loaded.sections ss)
    → All (InFile image) ss
unfolding load_loop
load_loop-InFile image layout phoff zero i ss w e =
    subst (All (InFile image)) (sections_inj (some_inj e)) tt
load_loop-InFile image layout phoff (suc n) i ss w e =
    let (phdr, first, more) =
      >>=-eq-some (read_phdr image layout (phoff + i * layout.phdr_size)) _ e in
    elim (visit_cases (is_loaded phdr) (is_rejected layout image phdr) (section_of phdr)
      (load_loop image layout phoff n (suc i)) ss more) [
        | inl skipped ↦ load_loop-InFile image layout phoff n (suc i) ss w skipped
        | inr (l, r, (ts, later, same)) ↦ subst (All (InFile image)) same (
          section_of-InFile layout image phdr w l r,
          load_loop-InFile image layout phoff n (suc i) ts w later,
        )
      ]

if_sections :
    (c : Bool) (o : Option Loaded) (ss : List Section)
    → (if c then some Loaded.failed else o) ≡ some (Loaded.sections ss)
    → o ≡ some (Loaded.sections ss)
if_sections true o ss e = cc
if_sections false o ss e = e

finish_load-InFile :
    (image : Image) (layout : Layout) (ss : List Section)
    → IsWide layout
    → finish_load image layout ≡ some (Loaded.sections ss)
    → All (InFile image) ss
unfolding finish_load load_table
finish_load-InFile image layout ss w e =
    let (phoff, e', more) = >>=-eq-some (field image layout.word_bytes layout.e_phoff) _ e in
    let (phnum, e'', table) = >>=-eq-some (field image 2 layout.e_phnum) _ more in
    load_loop-InFile image layout phoff phnum 0 ss w (if_sections _ _ ss table)

if_either :
    (c d : Bool) (o p : Option Loaded) (ss : List Section)
    → (if c then o else if d then p else some Loaded.failed) ≡ some (Loaded.sections ss)
    → (o ≡ some (Loaded.sections ss)) ⊎ (p ≡ some (Loaded.sections ss))
if_either true d o p ss e = inl e
if_either false true o p ss e = inr e
if_either false false o p ss e = cc

-- Every section that `open` gives, for a file of either class, is not empty and is as large as its
-- data at least; and its data, if any, ends inside the file, provided its end does not wrap around at
-- 32 bits.
pub open_elf-InFile :
    (image : Image) (ss : List Section)
    → open_elf image ≡ some (Loaded.sections ss)
    → All (InFile image) ss
unfolding open_elf
open_elf-InFile image ss e =
    elim (if_either (image.byte_at 4 == 1) (image.byte_at 4 == 2) _ _ ss (
      if_sections (not (has_magic image)) _ ss
        (if_sections (ltb image.elf_size ehdr32_size) _ ss e))) [
          | inl class32 ↦ finish_load-InFile image elf32 ss (omega arith) class32
          | inr class64 ↦ finish_load-InFile image elf64 ss (omega arith) class64
        ]
