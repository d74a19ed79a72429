-- ===== src/Vcd/Restore.antt =====
-- A dumped value is read back.
use koika.Prelude.{
  ℕ, ◌^◌, ◌<◌, ◌≡◌, refl, arith, Bool, true, false, ◌||◌, some, List, [], ◌∷◌, ◌++◌, All, ◌==◌,
}
use koika.Prelude.{not}
use koika.Bits.Width.{IsNative}
use mathlib.Core.Path.{ap₂}
use koika.Text.{of_str, bin_digits}
use koika.Text.Binary.{IsBit, of_str_marked}
use koika.Text.Format.{fmt_bin}
use koika.Vcd.{dumpvar, first_word, after_word, extract, Reader, readvar}
use koika.Text.Number.{is_space, skip_spaces}

-- A word has no space in it.
abbrev pub IsWord : List ℕ → Type 0
IsWord cs = All (λ c. is_space c ≡ false) cs

first_word-append : (xs ys : List ℕ) → IsWord xs → first_word (xs ++ (0x20 ∷ ys)) ≡ xs
unfolding first_word
first_word-append [] ys h = refl
first_word-append (x ∷ xs) ys h = rw (h.0, first_word-append xs ys h.1) refl

after_word-append : (xs ys : List ℕ) → IsWord xs → after_word (xs ++ (0x20 ∷ ys)) ≡ 0x20 ∷ ys
unfolding after_word
after_word-append [] ys h = refl
after_word-append (x ∷ xs) ys h = rw (h.0, after_word-append xs ys h.1) refl

first_word_lem : (xs : List ℕ) → IsWord xs → first_word xs ≡ xs
unfolding first_word
first_word_lem [] h = refl
first_word_lem (x ∷ xs) h = rw (h.0, first_word_lem xs h.1) refl

pub bits-IsWord : (cs : List ℕ) → All IsBit cs → IsWord cs
bits-IsWord [] h = tt
bits-IsWord (c ∷ cs) h = (ground (arith, h.0), bits-IsWord cs h.1)

-- `dumpvar` writes one line if it is forced to or the value has changed.
pub dumpvar_line :
    (sz : ℕ) (name : List ℕ) (v previous : ℕ) (force : Bool) (str : List ℕ)
    → (force || not (v == previous)) ≡ true
    → bin_digits sz v ≡ some str
    → dumpvar sz name v previous force ≡ some (((0x62 ∷ str) ++ (0x20 ∷ name)) ∷ [])
unfolding dumpvar fmt_bin
dumpvar_line sz name v previous force str written printed = rw (written, printed) refl

extract_first :
    (old : List ℕ) (x : ℕ) (xs ys : List ℕ)
    → IsWord (x ∷ xs)
    → extract old ((x ∷ xs) ++ (0x20 ∷ ys)) ≡ (x ∷ xs, 0x20 ∷ ys)
unfolding extract skip_spaces
extract_first old x xs ys h =
    rw h.0 (ap₂ (λ s t. (s, t)) (first_word-append (x ∷ xs) ys h) (after_word-append (x ∷ xs) ys h))

extract_last :
    (old : List ℕ) (c : ℕ) (cs : List ℕ)
    → IsWord (c ∷ cs)
    → (extract old (0x20 ∷ c ∷ cs)).0 ≡ c ∷ cs
unfolding extract skip_spaces
extract_last old c cs h = rw h.0 (first_word_lem (c ∷ cs) h)

pub readvar_line :
    (read_number : List ℕ → ℕ → ℕ) (c : ℕ) (cs str : List ℕ) (r : Reader) (lines : List (List ℕ))
    → IsWord (0x62 ∷ str)
    → IsWord (c ∷ cs)
    → readvar read_number (((0x62 ∷ str) ++ (0x20 ∷ c ∷ cs)) ∷ lines) r
      ≡ (true, record { cycle_id = r.cycle_id; name = c ∷ cs; val = 0x62 ∷ str; lines = lines })
unfolding readvar
readvar_line read_number c cs str r lines b word =
    rw (extract_first r.val 0x62 str (c ∷ cs) b, extract_last r.name c cs word) refl

-- For a value that fits its width of 1 to 64 bits and is forced or has changed, and a name of one
-- character at least and without spaces: `dumpvar` writes one line; `readvar` finds on it the name and
-- a value, which `of_str` reads as the value dumped, keeps the cycle, and leaves the other lines.
pub readvar-dumpvar :
    (read_number : List ℕ → ℕ → ℕ) (sz : ℕ) (c : ℕ) (cs : List ℕ) (v previous : ℕ) (force : Bool)
    (r : Reader) (lines : List (List ℕ))
    → 0 < sz
    → IsNative sz
    → v < 2 ^ sz
    → (force || not (v == previous)) ≡ true
    → IsWord (c ∷ cs)
    → (line : List ℕ) × (val : List ℕ) × (dumpvar sz (c ∷ cs) v previous force ≡ some (line ∷ []))
      × (readvar read_number (line ∷ lines) r
          ≡ (true, record { cycle_id = r.cycle_id; name = c ∷ cs; val = val; lines = lines }))
      × (of_str sz val ≡ some v)
readvar-dumpvar read_number sz c cs v previous force r lines h native fits written word =
    let (str, printed, back, digits) = of_str_marked sz v h native fits in
    (
      (0x62 ∷ str) ++ (0x20 ∷ c ∷ cs),
      0x62 ∷ str,
      dumpvar_line sz (c ∷ cs) v previous force str written printed,
      readvar_line read_number c cs str r lines (refl, bits-IsWord str digits) word,
      back,
    )
