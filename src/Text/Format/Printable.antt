-- ===== src/Text/Format/Printable.antt =====
-- A byte array prints as visible characters.
use koika.Prelude.{All-append}
use koika.Prelude.{
  ℕ, ◌/◌, ◌%◌, ◌≡◌, ◌<◌, refl, arith, true, ◌||◌, List, [], ◌∷◌, All, ◌==◌, Bool-cases, inl, inr,
}
use koika.Text.{digit_char}
use koika.Text.Format.{is_graph, fmt_char, fmt_chars, fmt_string}

abbrev pub AreVisible : List ℕ → Type 0
AreVisible cs = All (λ c. is_graph c ≡ true) cs

digit_char-visible : (d : ℕ) → d < 16 → is_graph (digit_char d) ≡ true
unfolding digit_char
digit_char-visible d h = ground arith

fmt_char-visible : (chr : ℕ) → chr < 256 → AreVisible (fmt_char chr)
unfolding fmt_char
fmt_char-visible chr h = elim (Bool-cases (chr == 0x5c || chr == 0x22)) [
  | inl quoted ↦ rw quoted (refl, (ground (arith, quoted), tt))
  | inr other ↦ elim (Bool-cases (is_graph chr)) [
    | inl visible ↦ rw (other, visible) (visible, tt)
    | inr hidden ↦
        rw (other, hidden)
          (
            refl,
            (
              refl,
              (
                digit_char-visible (chr / 16) (omega (arith, h)),
                (digit_char-visible (chr % 16) (omega arith), tt),
              ),
            ),
          )
  ]
]

fmt_chars-visible : (chrs : List ℕ) → All (λ c. c < 256) chrs → AreVisible (fmt_chars chrs)
unfolding fmt_chars
fmt_chars-visible [] h = tt
fmt_chars-visible (chr ∷ chrs) h =
    All-append (λ c. is_graph c ≡ true) (fmt_char chr) (fmt_chars chrs) (fmt_char-visible chr h.0)
      (fmt_chars-visible chrs h.1)

-- Whatever bytes an array holds, its string consists of visible characters only.
fmt_string-visible : (chrs : List ℕ) → All (λ c. c < 256) chrs → AreVisible (fmt_string chrs)
unfolding fmt_string
fmt_string-visible chrs h = (
  refl,
  All-append (λ c. is_graph c ≡ true) (fmt_chars chrs) (0x22 ∷ []) (fmt_chars-visible chrs h)
      (refl, tt),
)
