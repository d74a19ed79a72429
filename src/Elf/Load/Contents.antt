-- ===== src/Elf/Load/Contents.antt =====
-- What the memory holds after `elf_load`.
use koika.Prelude.{
  ℕ, zero, suc, ◌+◌, ◌*◌, ◌≤◌, ◌≡◌, refl, sym, ap, ◌∙◌, Bool, true, false, ◌&&◌, Option, none, some,
  List, [], ◌∷◌, All, ◌==◌, if◌then◌else◌, ◌>>=◌, >>=-eq-some, some_inj, le→leb, ge→ltb, Bool-cases,
  if-true, if-false, inl, inr,
}
use mathlib.Core.Path.{subst}
use koika.Elf.{Image, Phdr, field, elf32, read_phdr, is_loaded, has_magic}
use koika.Elf.Sections.{headers}
use koika.Elf.Load.{
  Memory, Filled, target, covers, source_byte, copy_segment, fill_segment, fill_loop, fill_table,
  fill, elf_load,
}

-- The segment of a loaded header lies in the file and in the memory.
abbrev pub Fits : Image → ℕ → Phdr → Type 0
Fits image size phdr =
    (is_loaded phdr ≡ true)
    → (phdr.p_filesz ≤ phdr.p_memsz)
      × (phdr.p_offset + phdr.p_filesz ≤ image.elf_size)
      × (target phdr + phdr.p_filesz ≤ size)

abbrev or_else : Option Phdr → Option Phdr → Option Phdr
or_else none other = other
or_else (some phdr) other = some phdr

-- The last of the loaded segments that cover an address.
abbrev pub last_covering : List Phdr → ℕ → Option Phdr
last_covering [] a = none
last_covering (phdr ∷ phdrs) a =
    or_else (last_covering phdrs a) (if is_loaded phdr && covers phdr a then some phdr else none)

abbrev pub byte_of : Image → (ℕ → ℕ) → ℕ → Option Phdr → ℕ
byte_of image old a none = old a
byte_of image old a (some phdr) = source_byte image phdr a

byte_of-or_else :
    (image : Image) (old : ℕ → ℕ) (a : ℕ) (phdr : Phdr) (c : Bool) (o : Option Phdr)
    → byte_of image (λ b. if c then source_byte image phdr b else old b) a o
      ≡ byte_of image old a (or_else o (if c then some phdr else none))
byte_of-or_else image old a phdr true none = refl
byte_of-or_else image old a phdr false none = refl
byte_of-or_else image old a phdr c (some other) = refl

-- A memory `m` holds the segments of the headers over an old memory.
abbrev pub Holds : Image → Memory → List Phdr → Memory → Type 0
Holds image mem phdrs m =
    (m.size ≡ mem.size) × ((a : ℕ) → m.bytes a ≡ byte_of image mem.bytes a (last_covering phdrs a))

abbrev written : Image → Phdr → Memory → Memory
written image phdr mem = record mem {
  bytes = λ a. if covers phdr a then source_byte image phdr a else mem.bytes a;
}

fill_segment_lem :
    (image : Image) (phdr : Phdr) (mem : Memory) (later : Memory → Option Filled)
    → is_loaded phdr ≡ true
    → Fits image mem.size phdr
    → fill_segment image phdr mem later ≡ later (written image phdr mem)
unfolding fill_segment copy_segment
fill_segment_lem image phdr mem later l fits =
    let (data_fits, in_file, in_memory) = fits l in
    rw (ge→ltb _ _ data_fits, le→leb _ _ in_file, le→leb _ _ in_memory) refl

-- The rest of the loop, after the first header.
Holds_next :
    (image : Image) (mem : Memory) (phdr : Phdr) (phdrs : List Phdr) (m : Memory) (l : Bool)
    → is_loaded phdr ≡ l
    → Holds image (if l then written image phdr mem else mem) phdrs m
    → Holds image mem (phdr ∷ phdrs) m
Holds_next image mem phdr phdrs m true e (size, bytes) = (
  size,
  λ a.
      bytes a
      ∙ rw e (byte_of-or_else image mem.bytes a phdr (covers phdr a) (last_covering phdrs a)),
)
Holds_next image mem phdr phdrs m false e (size, bytes) = (
  size,
  λ a. bytes a ∙ rw e (byte_of-or_else image mem.bytes a phdr false (last_covering phdrs a)),
)

-- What a loop over the later headers does from any memory of the same size.
abbrev Fills : Image → ℕ → List Phdr → (Memory → Option Filled) → Type 0
Fills image size phdrs loop =
    (mem : Memory)
    → mem.size ≡ size
    → (m : Memory) × (loop mem ≡ some (Filled.filled m)) × Holds image mem phdrs m

one_header :
    (image : Image) (mem : Memory) (phdr : Phdr) (phdrs : List Phdr) (loop : Memory → Option Filled)
    → Fits image mem.size phdr
    → Fills image mem.size phdrs loop
    → (m : Memory) × ((if is_loaded phdr then fill_segment image phdr mem loop else loop mem)
        ≡ some (Filled.filled m))
      × Holds image mem (phdr ∷ phdrs) m
one_header image mem phdr phdrs loop fits later = elim (Bool-cases (is_loaded phdr)) [
  | inl l ↦
      let (m, ran, h) = later (written image phdr mem) refl in
      (
        m,
        if-true (is_loaded phdr) (fill_segment image phdr mem loop) (loop mem) l
            ∙ fill_segment_lem image phdr mem loop l fits
            ∙ ran,
        Holds_next image mem phdr phdrs m true l h,
      )
  | inr l ↦
      let (m, ran, h) = later mem refl in
      (
        m,
        if-false (is_loaded phdr) (fill_segment image phdr mem loop) (loop mem) l ∙ ran,
        Holds_next image mem phdr phdrs m false l h,
      )
]

fill_loop-Holds :
    (image : Image) (phoff n i size : ℕ) (phdrs : List Phdr)
    → headers image elf32 phoff n i ≡ some phdrs
    → All (Fits image size) phdrs
    → Fills image size phdrs (fill_loop image phoff n i)
unfolding fill_loop headers
fill_loop-Holds image phoff zero i size phdrs e fits mem same =
    subst
      (λ t.
        (m : Memory) × (some (Filled.filled mem) ≡ some (Filled.filled m)) × Holds image mem t m)
      (some_inj e) (mem, refl, (refl, λ a. refl))
fill_loop-Holds image phoff (suc n) i size phdrs e fits mem same =
    let (phdr, first, more) = >>=-eq-some (read_phdr image elf32 (phoff + i * 32)) _ e in
    let (later, others, last) = >>=-eq-some (headers image elf32 phoff n (suc i)) _ more in
    let fits' = subst (All (Fits image size)) (sym (some_inj last)) fits in
    let (m, ran, h) =
      one_header image mem phdr later (fill_loop image phoff n (suc i))
        (subst (λ t. Fits image t phdr) (sym same) fits'.0)
        (λ mem' same'.
          fill_loop-Holds image phoff n (suc i) size later others fits'.1 mem' (same' ∙ same)) in
    (
      m,
      ap
            (λ o. o >>= λ p.
              if is_loaded p
              then fill_segment image p mem (fill_loop image phoff n (suc i))
              else fill_loop image phoff n (suc i) mem)
            first
          ∙ ran,
      subst (λ t. Holds image mem t m) (some_inj last) h,
    )

-- For a 32-bit file that has the ELF magic, whose program headers lie in the file and can be read,
-- and whose loaded segments are no larger than their memory sizes and lie in the file and in the
-- memory: `elf_load` returns a memory of the same size, in which each byte is that of the last loaded
-- segment covering it, and unchanged where there is none.
pub elf_load-Holds :
    (image : Image) (phoff phnum : ℕ) (phdrs : List Phdr) (mem : Memory)
    → 52 ≤ image.elf_size
    → has_magic image ≡ true
    → (image.byte_at 4 == 1) ≡ true
    → field image 4 28 ≡ some phoff
    → field image 2 44 ≡ some phnum
    → phoff + phnum * 32 ≤ image.elf_size
    → headers image elf32 phoff phnum 0 ≡ some phdrs
    → All (Fits image mem.size) phdrs
    → (m : Memory) × (elf_load image mem ≡ some (Filled.filled m)) × Holds image mem phdrs m
unfolding elf_load fill fill_table
elf_load-Holds image phoff phnum phdrs mem large magic class32 e e' inside read fits =
    let (m, ran, h) = fill_loop-Holds image phoff phnum 0 mem.size phdrs read fits mem refl in
    (m, rw (ge→ltb _ _ large, magic, class32, e, e', ge→ltb _ _ inside) ran, h)
