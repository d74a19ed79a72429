-- ===== src/Hex/Dump.antt =====
-- The lines that elf2hex writes for a section.
use native.Mathlib.Nat.{mod-eq_of_lt}
use mathlib.Core.Path.{ap₂}
use koika.Prelude.{
  ℕ, zero, suc, ◌+◌, ◌*◌, ◌/◌, ◌^◌, ◌≤◌, ◌<◌, ◌≡◌, refl, ap, ◌∙◌, arith, true, false, some, List,
  [], ◌∷◌, ◌++◌, ltb, Bool-cases, inl, inr, lt→ltb, ge→ltb, if-true, if-false,
}
use koika.Elf.{Image, Section}
use koika.Hex.{
  Config, Line, wrap, char_count, char_loop, zeros, continues, data_loop, zero_loop, start_of,
  dump_section, log_width,
}

-- The bytes of a word, the highest first, and words that follow each other.
abbrev bytes_at : Image → ℕ → ℕ → List ℕ
bytes_at image from zero = []
bytes_at image from (suc n) = image.byte_at (from + n) ∷ bytes_at image from n

abbrev pub words : Image → ℕ → ℕ → ℕ → List Line
words image width from zero = []
words image width from (suc n) =
    Line.word (bytes_at image from (char_count width)) ∷ words image width (from + width) n

abbrev pub zero_words : ℕ → ℕ → List Line
zero_words width zero = []
zero_words width (suc n) = Line.word (zeros (char_count width)) ∷ zero_words width n

char_loop_lem :
    (image : Image) (from n : ℕ)
    → from + n ≤ image.elf_size
    → char_loop image from n ≡ some (bytes_at image from n)
unfolding char_loop
char_loop_lem image from zero h = refl
char_loop_lem image from (suc n) h =
    rw
      (
        char_loop_lem image from n (omega (arith, h)),
        lt→ltb (from + n) image.elf_size (omega (arith, h)),
      )
      refl

-- No sum of the section wraps around, and the file holds its data and one word more.
pub record IsRoomy (c : Config) (image : Image) (s : Section) : Type 0 where
  pub width_pos : 0 < c.width
  pub range_end : c.base_address + c.size < 2 ^ 64
  pub section_end : s.base + s.section_size + c.width < 2 ^ 64
  pub data_fits : s.data_size ≤ s.section_size
  pub readable : s.data_offset + s.data_size + c.width ≤ image.elf_size

-- An offset at which there is something left to write.
abbrev IsLeft : Config → Section → ℕ → ℕ → Type 0
IsLeft c s bound x = (s.base + x < c.base_address + c.size) × (x < bound)

-- A loop stops after `n` words: each of them starts at an offset where something is left, and nothing
-- is left from where the last one ends.
abbrev pub Stops : Config → Section → ℕ → ℕ → ℕ → Type 0
Stops c s bound offset n =
    ((i : ℕ) → i < n → IsLeft c s bound (offset + i * c.width))
    × ((x : ℕ) → IsLeft c s bound x → x < offset + n * c.width)

module _ (c : Config) (image : Image) (s : Section) (r : IsRoomy c image s) where
  continues-true :
      (bound offset : ℕ)
      → s.base + offset < 2 ^ 64
      → continues c s bound offset ≡ true
      → IsLeft c s bound offset
  continues-true bound offset h e = ground (arith, e, mod-eq_of_lt h, mod-eq_of_lt r.range_end)

  continues-false :
      (bound offset : ℕ)
      → s.base + offset < 2 ^ 64
      → continues c s bound offset ≡ false
      → (x : ℕ) → IsLeft c s bound x
      → x < offset
  continues-false bound offset h e x left =
      ground (arith, e, left.0, left.1, mod-eq_of_lt h, mod-eq_of_lt r.range_end)

  Stops-now :
      (bound offset : ℕ)
      → s.base + offset < 2 ^ 64
      → continues c s bound offset ≡ false
      → Stops c s bound offset 0
  Stops-now bound offset h e = (
    λ i k. absurd (omega (arith, k)),
    λ x left. omega (arith, continues-false bound offset h e x left),
  )

  Stops-next :
      (bound offset n : ℕ)
      → IsLeft c s bound offset
      → Stops c s bound (offset + c.width) n
      → Stops c s bound offset (suc n)
  Stops-next bound offset n left (starts, ends) = (first, λ x l. omega (arith, ends x l))
    where
      first : (i : ℕ) → i < suc n → IsLeft c s bound (offset + i * c.width)
      first zero k = (omega (arith, left.0), omega (arith, left.1))
      first (suc i) k =
          let (a, b) = starts i (omega (arith, k)) in (omega (arith, a), omega (arith, b))

  next_room :
      (bound offset : ℕ)
      → bound ≤ s.section_size
      → IsLeft c s bound offset
      → s.base + (offset + c.width) < 2 ^ 64
  next_room bound offset h left = omega (arith, h, left.1, r.section_end)

  next_small :
      (bound offset : ℕ)
      → bound ≤ s.section_size
      → IsLeft c s bound offset
      → offset + c.width < 2 ^ 64
  next_small bound offset h left = omega (arith, next_room bound offset h left)

  char_count-le : (w : ℕ) → char_count w ≤ w
  char_count-le w = ground arith

  next_word : (offset : ℕ) → s.data_offset + (offset + c.width) ≡ s.data_offset + offset + c.width
  next_word offset = omega arith

  total : (offset n : ℕ) → offset + c.width + n * c.width ≡ offset + suc n * c.width
  total offset n = omega arith

  data_loop-words :
      (fuel offset : ℕ)
      → s.data_size < fuel + offset
      → s.base + offset < 2 ^ 64
      → 0 < fuel
      → (n : ℕ) × (data_loop c image s fuel offset
          ≡ some (words image c.width (s.data_offset + offset) n, offset + n * c.width))
        × Stops c s s.data_size offset n
  unfolding data_loop
  data_loop-words zero offset enough h p = absurd (omega arith)
  data_loop-words (suc fuel) offset enough h p =
      elim (Bool-cases (continues c s s.data_size offset)) [
        | inl more ↦
            let left = continues-true s.data_size offset h more in
            let room = next_room s.data_size offset r.data_fits left in
            let (n, loop, stops) =
              data_loop-words fuel (offset + c.width) (omega (arith, enough, r.width_pos)) room
                (omega (arith, enough, left.1)) in
            (
              suc n,
              if-true _ _ _ more
                  ∙ rw
                      (
                        char_loop_lem image (s.data_offset + offset) (char_count c.width)
                            (omega (arith, r.readable, left.1, char_count-le c.width)),
                        mod-eq_of_lt (next_small s.data_size offset r.data_fits left),
                        loop,
                      )
                      (ap₂
                        (λ t u. some (
                          Line.word (bytes_at image (s.data_offset + offset) (char_count c.width))
                              ∷ words image c.width t n,
                          u,
                        ))
                        (next_word offset) (total offset n)),
              Stops-next s.data_size offset n left stops,
            )
        | inr stop ↦ (
          0,
          if-false _ _ _ stop ∙ ap (λ t. some ([], t)) (omega arith),
          Stops-now s.data_size offset h stop,
        )
      ]

  zero_loop-zero_words :
      (fuel offset : ℕ)
      → s.section_size < fuel + offset
      → s.base + offset < 2 ^ 64
      → 0 < fuel
      → (n : ℕ) × (zero_loop c s fuel offset ≡ some (zero_words c.width n, offset + n * c.width))
        × Stops c s s.section_size offset n
  unfolding zero_loop
  zero_loop-zero_words zero offset enough h p = absurd (omega arith)
  zero_loop-zero_words (suc fuel) offset enough h p =
      elim (Bool-cases (continues c s s.section_size offset)) [
        | inl more ↦
            let left = continues-true s.section_size offset h more in
            let room = next_room s.section_size offset (omega arith) left in
            let (n, loop, stops) =
              zero_loop-zero_words fuel (offset + c.width) (omega (arith, enough, r.width_pos)) room
                (omega (arith, enough, left.1)) in
            (
              suc n,
              if-true _ _ _ more
                  ∙ rw (mod-eq_of_lt (next_small s.section_size offset (omega arith) left), loop)
                      (ap
                        (λ u.
                          some (Line.word (zeros (char_count c.width)) ∷ zero_words c.width n, u))
                        (total offset n)),
              Stops-next s.section_size offset n left stops,
            )
        | inr stop ↦ (
          0,
          if-false _ _ _ stop ∙ ap (λ t. some ([], t)) (omega arith),
          Stops-now s.section_size offset h stop,
        )
      ]

  end_room :
      (offset n : ℕ)
      → s.base + offset < 2 ^ 64
      → Stops c s s.data_size offset n
      → s.base + (offset + n * c.width) < 2 ^ 64
  end_room offset zero h stops = omega (arith, h)
  end_room offset (suc n) h (starts, ends) =
      let (a, b) = starts n (omega arith) in omega (arith, b, r.data_fits, r.section_end)

  start_room : s.base ≤ c.base_address + c.size → s.base + (start_of c s).1 < 2 ^ 64
  unfolding start_of
  start_room h = ground (arith, h, r.range_end)

  -- A section that starts no later than the range ends, where no sum wraps around and the file holds
  -- the data and one word more, is written as its address line, `n` words of consecutive bytes of the
  -- file from the first offset in the range on, and `m` words of zeros. Every data word starts where
  -- data in the range is left, every zero word where a part of the section in the range is left, and
  -- together they reach the end of both.
  pub dump_section-words :
      s.base ≤ c.base_address + c.size
      → (n : ℕ) × (m : ℕ) × (dump_section c image s
          ≡ some (
              Line.address ((start_of c s).0 / 2 ^ log_width c.width)
                ∷ words image c.width (s.data_offset + (start_of c s).1) n
              ++ zero_words c.width m))
        × Stops c s s.data_size (start_of c s).1 n
        × Stops c s s.section_size ((start_of c s).1 + n * c.width) m
  unfolding dump_section
  dump_section-words h =
      let start = (start_of c s).1 in
      let (n, data_lines, data_stops) =
        data_loop-words (suc s.data_size) start (omega arith) (start_room h) (omega arith) in
      let (m, zero_lines, zero_stops) =
        zero_loop-zero_words (suc s.section_size) (start + n * c.width) (omega arith)
          (end_room start n (start_room h) data_stops) (omega arith) in
      (n, m, written n m data_lines zero_lines, data_stops, zero_stops)
    where
      in_range : ltb (wrap (c.base_address + c.size)) s.base ≡ false
      in_range = ge→ltb _ _ (omega (arith, h, mod-eq_of_lt r.range_end))

      written :
          (n m : ℕ)
          → data_loop c image s (suc s.data_size) (start_of c s).1
            ≡ some (
              words image c.width (s.data_offset + (start_of c s).1) n,
              (start_of c s).1 + n * c.width,
            )
          → zero_loop c s (suc s.section_size) ((start_of c s).1 + n * c.width)
            ≡ some (zero_words c.width m, (start_of c s).1 + n * c.width + m * c.width)
          → dump_section c image s
            ≡ some (
                Line.address ((start_of c s).0 / 2 ^ log_width c.width)
                  ∷ words image c.width (s.data_offset + (start_of c s).1) n
                ++ zero_words c.width m)
      written n m e e' = if-false _ _ _ in_range ∙ rw (e, e') refl
