-- ===== src/Hex/Lines.antt =====
-- The lines of a whole file.
use native.Mathlib.Nat.{mod-eq_of_lt}
use koika.Prelude.{
  ℕ, ◌+◌, ◌*◌, ◌/◌, ◌^◌, ◌≤◌, ◌<◌, ◌≡◌, refl, arith, Bool, true, some, List, [], ◌∷◌, ◌++◌, All,
  ltb, ltb→ge, ltb→lt, Bool-cases, inl, inr, ◌⊎◌, if-true, Option,
}
use koika.Elf.{Image, Section, Loaded, open_elf}
use koika.Hex.{Config, Line, wrap, start_of, dump_section, dump_sections, log_width, scale}
use koika.Hex.Dump.{IsRoomy, Stops, words, zero_words, dump_section-words}
use koika.Hex.Width.{is_width-accepts}
use koika.Hex.Arguments.{suffix_of, config_of}
use koika.Hex.Arguments.Roundtrip.{hexadecimal, Follows, strtoull-hexadecimal}
use koika.Hex.Main.{Outcome, hex_main}

-- The lines of a section: none if it starts behind the range, or an address, words of the file and
-- words of zeros, up to the end of the range or of the section.
abbrev pub Writes : Config → Image → Section → List Line → Type 0
Writes c image s lines =
    ((c.base_address + c.size < s.base) × (lines ≡ []))
    ⊎ ((n : ℕ) × (m : ℕ) × (s.base ≤ c.base_address + c.size)
        × (lines
            ≡ Line.address ((start_of c s).0 / 2 ^ log_width c.width)
                ∷ words image c.width (s.data_offset + (start_of c s).1) n
              ++ zero_words c.width m)
        × Stops c s s.data_size (start_of c s).1 n
        × Stops c s s.section_size ((start_of c s).1 + n * c.width) m)

-- Those of all sections, in order, and the address of the end.
abbrev pub WritesAll : Config → Image → List Section → List Line → Type 0
WritesAll c image [] lines = lines ≡ Line.address (c.size / 2 ^ log_width c.width) ∷ []
WritesAll c image (s ∷ ss) lines =
    (first : List Line) × (rest : List Line) × (lines ≡ first ++ rest)
    × Writes c image s first
    × WritesAll c image ss rest

dump_section-Writes :
    (c : Config) (image : Image) (s : Section)
    → IsRoomy c image s
    → (lines : List Line) × (dump_section c image s ≡ some lines) × Writes c image s lines
unfolding dump_section
dump_section-Writes c image s r = elim (Bool-cases (ltb (wrap (c.base_address + c.size)) s.base)) [
  | inl behind ↦ (
    [],
    if-true _ _ _ behind,
    inl (omega (arith, ltb→lt _ _ behind, mod-eq_of_lt r.range_end), refl),
  )
  | inr reached ↦
      let start : s.base ≤ c.base_address + c.size =
        omega (arith, ltb→ge _ _ reached, mod-eq_of_lt r.range_end) in
      let (n, m, e, data_stops, zero_stops) = dump_section-words c image s r start in
      (_, e, inr (n, m, start, refl, data_stops, zero_stops))
]

dump_sections-WritesAll :
    (c : Config) (image : Image) (ss : List Section)
    → All (IsRoomy c image) ss
    → (lines : List Line) × (dump_sections c image ss ≡ some lines) × WritesAll c image ss lines
unfolding dump_sections
dump_sections-WritesAll c image [] h = (_, refl, refl)
dump_sections-WritesAll c image (s ∷ ss) h =
    let (first, e, w) = dump_section-Writes c image s h.0 in
    let (rest, e', w') = dump_sections-WritesAll c image ss h.1 in
    (first ++ rest, rw (e, e') refl, (first, rest, refl, w, w'))

-- Three numbers in hexadecimal, the second with a suffix, are accepted if the third is a power of two.
config_of-hexadecimal :
    (b n w size : ℕ) (suffix : List ℕ)
    → b < 2 ^ 64
    → n < 2 ^ 64
    → w < 2 ^ 64
    → Follows suffix
    → scale n (suffix_of suffix) ≡ some size
    → w ≡ 2 ^ log_width w
    → config_of (hexadecimal b []) (hexadecimal n suffix) (hexadecimal w [])
      ≡ some (record { base_address = b; size = size; width = w })
unfolding config_of
config_of-hexadecimal b n w size suffix hb hn hw f scaled power =
    rw
      (
        strtoull-hexadecimal b [] hb tt,
        strtoull-hexadecimal n suffix hn f,
        strtoull-hexadecimal w [] hw tt,
        scaled,
        (is_width-accepts w hw).1 power,
      )
      refl

-- For a base address, a size and a width of 64 bits in hexadecimal, the size with a suffix that scales
-- it, and the width a power of two; a file that is opened, the sections of which have room; and an
-- output that can be written: elf2hex writes the sections in order, each of them as nothing if it
-- starts behind the range, and otherwise as its address line, words of consecutive bytes of the file
-- from the first offset in the range on, and words of zeros, up to the end of the range or of the
-- section; then the address of the end.
pub hex_main_lem :
    (files : List ℕ → Option Image) (writable : List ℕ → Bool) (elf hex : List ℕ) (b n w size : ℕ)
    (suffix : List ℕ) (image : Image) (ss : List Section)
    → b < 2 ^ 64
    → n < 2 ^ 64
    → w < 2 ^ 64
    → Follows suffix
    → scale n (suffix_of suffix) ≡ some size
    → w ≡ 2 ^ log_width w
    → files elf ≡ some image
    → writable hex ≡ true
    → open_elf image ≡ some (Loaded.sections ss)
    → All (IsRoomy (record { base_address = b; size = size; width = w }) image) ss
    → (lines : List Line) × (hex_main files writable
          (elf ∷ hexadecimal b [] ∷ hexadecimal n suffix ∷ hexadecimal w [] ∷ hex ∷ [])
        ≡ some (Outcome.written lines))
      × WritesAll (record { base_address = b; size = size; width = w }) image ss lines
unfolding hex_main
hex_main_lem files writable elf hex b n w size suffix image ss hb hn hw f scaled power found free
      opened roomy =
    let (lines, e, writes) =
      dump_sections-WritesAll (record { base_address = b; size = size; width = w }) image ss
        roomy in
    (
      lines,
      rw (config_of-hexadecimal b n w size suffix hb hn hw f scaled power, found, free, opened, e)
          refl,
      writes,
    )
