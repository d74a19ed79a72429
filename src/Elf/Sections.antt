-- ===== src/Elf/Sections.antt =====
-- What `open` finds in a 32-bit file.
use koika.Prelude.{
  ℕ, zero, suc, ◌+◌, ◌*◌, ◌%◌, ◌^◌, ◌≤◌, ◌<◌, ◌≡◌, refl, arith, ◌∙◌, Bool, true, false, ◌||◌, not,
  Option, some, List, [], ◌∷◌, ltb, leb, ◌==◌, if◌then◌else◌, ◌>>=◌, >>=-eq-some, some_inj, Returns,
  Returns->>=, le→leb, ltb→ge, map, ap, Bool-cases, inl, inr, ◌⊎◌,
}
use mathlib.Core.Path.{subst}
use native.Mathlib.Nat.{pow-suc}
use koika.Elf.{
  Image, Layout, Phdr, Section, Loaded, little_endian, field, elf32, ehdr32_size, read_phdr,
  is_loaded, is_rejected, section_of, visit, load_loop, load_table, has_magic, finish_load,
  open_elf,
}

field-Returns :
    (image : Image) (width off : ℕ) → off + width ≤ image.elf_size → Returns (field image width off)
unfolding field
field-Returns image width off h = rw (le→leb _ _ h) (little_endian image.byte_at width off, refl)

-- The bytes of a file are bytes.
abbrev pub AreBytes : (ℕ → ℕ) → Type 0
AreBytes f = (i : ℕ) → f i < 256

pub little_endian-lt : (f : ℕ → ℕ) (n off : ℕ) → AreBytes f → little_endian f n off < 256 ^ n
unfolding little_endian
little_endian-lt f zero off h = omega arith
little_endian-lt f (suc n) off h =
    omega (arith, h off, little_endian-lt f n (suc off) h, pow-suc 256 n)

field-lt :
    (image : Image) (width off v : ℕ)
    → AreBytes image.byte_at
    → field image width off ≡ some v
    → v < 256 ^ width
unfolding field
field-lt image width off v h e = elim (Bool-cases (leb (off + width) image.elf_size)) [
  | inl inside ↦
      let e' = rw inside at e in
      subst (λ (t : ℕ). t < 256 ^ width) (some_inj e') (little_endian-lt image.byte_at width off h)
  | inr outside ↦ let undefined = rw outside at e in cc
]

-- A header inside the file can be read.
read_phdr-Returns :
    (image : Image) (at_byte : ℕ)
    → at_byte + 32 ≤ image.elf_size
    → Returns (read_phdr image elf32 at_byte)
unfolding read_phdr
read_phdr-Returns image at_byte h =
    Returns->>= _ _ (field-Returns image 4 at_byte (omega arith)) (λ a _.
      Returns->>= _ _ (field-Returns image 4 (at_byte + 4) (omega arith)) (λ b _.
        Returns->>= _ _ (field-Returns image 4 (at_byte + 12) (omega arith)) (λ c _.
          Returns->>= _ _ (field-Returns image 4 (at_byte + 16) (omega arith)) (λ d _.
            Returns->>= _ _ (field-Returns image 4 (at_byte + 20) (omega arith))
              (λ e _. (_, refl))))))

-- The headers of the table, read one after the other.
unfoldable pub headers : Image → Layout → ℕ → ℕ → ℕ → Option (List Phdr)
headers image layout phoff zero i = some []
headers image layout phoff (suc n) i = do
  phdr ← read_phdr image layout (phoff + i * layout.phdr_size)
  later ← headers image layout phoff n (suc i)
  some (phdr ∷ later)

abbrev loaded_headers : List Phdr → List Phdr
loaded_headers [] = []
loaded_headers (phdr ∷ phdrs) =
    if is_loaded phdr then phdr ∷ loaded_headers phdrs else loaded_headers phdrs

abbrev any_rejected : Layout → Image → List Phdr → Bool
any_rejected layout image [] = false
any_rejected layout image (phdr ∷ phdrs) =
    is_rejected layout image phdr || any_rejected layout image phdrs

-- The sections of the loaded headers, unless one of these is rejected.
abbrev select : Layout → Image → List Phdr → Loaded
select layout image phdrs =
    if any_rejected layout image (loaded_headers phdrs)
    then Loaded.failed
    else Loaded.sections (map section_of (loaded_headers phdrs))

select_if : Bool → Bool → Section → Bool → List Section → Loaded
select_if false rejected s bad ss = if bad then Loaded.failed else Loaded.sections ss
select_if true rejected s bad ss =
    if rejected || bad then Loaded.failed else Loaded.sections (s ∷ ss)

visit-select_if :
    (l r : Bool) (s : Section) (bad : Bool) (ss : List Section)
    → visit l r s (some (if bad then Loaded.failed else Loaded.sections ss))
      ≡ some (select_if l r s bad ss)
unfolding select_if
visit-select_if false r s bad ss = refl
visit-select_if true true s bad ss = refl
visit-select_if true false s true ss = refl
visit-select_if true false s false ss = refl

select-select_if :
    (layout : Layout) (image : Image) (phdr : Phdr) (phdrs : List Phdr) (l : Bool)
    → is_loaded phdr ≡ l
    → select_if l
        (is_rejected layout image phdr)
        (section_of phdr)
        (any_rejected layout image (loaded_headers phdrs))
        (map section_of (loaded_headers phdrs))
      ≡ select layout image (phdr ∷ phdrs)
unfolding select_if
select-select_if layout image phdr phdrs true e = rw e refl
select-select_if layout image phdr phdrs false e = rw e refl

load_loop-select :
    (image : Image) (layout : Layout) (phoff n i : ℕ) (phdrs : List Phdr)
    → headers image layout phoff n i ≡ some phdrs
    → load_loop image layout phoff n i ≡ some (select layout image phdrs)
unfolding load_loop headers
load_loop-select image layout phoff zero i phdrs e =
    ap (λ t. some (select layout image t)) (some_inj e)
load_loop-select image layout phoff (suc n) i phdrs e =
    let (phdr, first, more) =
      >>=-eq-some (read_phdr image layout (phoff + i * layout.phdr_size)) _ e in
    let (later, others, last) = >>=-eq-some (headers image layout phoff n (suc i)) _ more in
    ap
      (λ o. o >>= λ h.
        visit (is_loaded h) (is_rejected layout image h) (section_of h)
          (load_loop image layout phoff n (suc i)))
      first
    ∙ ap (visit (is_loaded phdr) (is_rejected layout image phdr) (section_of phdr))
        (load_loop-select image layout phoff n (suc i) later others)
    ∙ visit-select_if _ _ _ (any_rejected layout image (loaded_headers later)) _
    ∙ ap some (select-select_if layout image phdr later _ refl)
    ∙ ap (λ t. some (select layout image t)) (some_inj last)

headers-Returns :
    (image : Image) (phoff n i : ℕ)
    → phoff + (i + n) * 32 ≤ image.elf_size
    → Returns (headers image elf32 phoff n i)
unfolding headers
headers-Returns image phoff zero i h = (_, refl)
headers-Returns image phoff (suc n) i h =
    Returns->>= _ _ (read_phdr-Returns image (phoff + i * 32) (omega arith)) (λ phdr _.
      Returns->>= _ _ (headers-Returns image phoff n (suc i) (omega arith)) (λ later _. (_, refl)))

-- The table that `finish_load` accepts lies in the file: in 64 bits its size does not wrap around.
accepted-inside :
    (size phoff phnum : ℕ)
    → phoff < 256 ^ 4
    → phnum < 256 ^ 2
    → ltb size ((phoff + phnum * 32) % 2 ^ 64) ≡ false
    → phoff + (0 + phnum) * 32 ≤ size
accepted-inside size phoff phnum p q h = omega (arith, ltb→ge size _ h)

-- How the loading of a 32-bit file ends: an error, or the selection from the headers of a table that
-- lies in the file.
abbrev pub Ends : Image → Loaded → Type 0
Ends image x =
    (x ≡ Loaded.failed)
    ⊎ ((phoff : ℕ) × (phnum : ℕ) × (phdrs : List Phdr) × (field image 4 28 ≡ some phoff)
        × (field image 2 44 ≡ some phnum)
        × (headers image elf32 phoff phnum 0 ≡ some phdrs)
        × (x ≡ select elf32 image phdrs))

load_table-Ends :
    (image : Image) (phoff phnum : ℕ)
    → AreBytes image.byte_at
    → field image 4 28 ≡ some phoff
    → field image 2 44 ≡ some phnum
    → (x : Loaded) × (load_table image elf32 phoff phnum ≡ some x) × Ends image x
unfolding load_table
load_table-Ends image phoff phnum bytes e e' =
    elim (Bool-cases (ltb image.elf_size ((phoff + phnum * 32) % 2 ^ 64))) [
      | inl large ↦ (Loaded.failed, rw large refl, inl refl)
      | inr inside ↦
          let fits =
            accepted-inside image.elf_size phoff phnum (field-lt image 4 28 phoff bytes e)
              (field-lt image 2 44 phnum bytes e') inside in
          let (phdrs, read) = headers-Returns image phoff phnum 0 fits in
          (
            select elf32 image phdrs,
            rw inside (load_loop-select image elf32 phoff phnum 0 phdrs read),
            inr (phoff, phnum, phdrs, e, e', read, refl),
          )
    ]

finish_load-Ends :
    (image : Image)
    → AreBytes image.byte_at
    → 52 ≤ image.elf_size
    → (x : Loaded) × (finish_load image elf32 ≡ some x) × Ends image x
unfolding finish_load
finish_load-Ends image bytes h =
    let (phoff, e) = field-Returns image 4 28 (omega arith) in
    let (phnum, e') = field-Returns image 2 44 (omega arith) in
    let (x, loaded, ends) = load_table-Ends image phoff phnum bytes e e' in
    (
      x,
      ap (λ o. o >>= λ p. field image 2 44 >>= λ q. load_table image elf32 p q) e
          ∙ ap (λ o. o >>= λ q. load_table image elf32 phoff q) e'
          ∙ loaded,
      ends,
    )

-- On the bytes of any file that is not a 64-bit one, `open` returns without reading outside of the
-- file; and it ends with an error, or with the sections of the headers that are to be loaded, none of
-- which is rejected, or an error if one is.
pub open_elf-Ends :
    (image : Image)
    → AreBytes image.byte_at
    → (image.byte_at 4 == 2) ≡ false
    → (x : Loaded) × (open_elf image ≡ some x) × Ends image x
unfolding open_elf
open_elf-Ends image bytes other = elim (Bool-cases (ltb image.elf_size ehdr32_size)) [
  | inl small ↦ (Loaded.failed, rw small refl, inl refl)
  | inr large ↦ elim (Bool-cases (not (has_magic image))) [
    | inl wrong ↦ (Loaded.failed, rw (large, wrong) refl, inl refl)
    | inr magic ↦ elim (Bool-cases (image.byte_at 4 == 1)) [
      | inl class32 ↦
          let (x, loaded, ends) = finish_load-Ends image bytes (ltb→ge image.elf_size 52 large) in
          (x, rw (large, magic, class32) loaded, ends)
      | inr class ↦ (Loaded.failed, rw (large, magic, class, other) refl, inl refl)
    ]
  ]
]
