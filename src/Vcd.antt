-- ===== src/Vcd.antt =====
-- The values of a VCD file as `cuttlesim::vcd` of ocaml/backends/resources/cuttlesim.hpp writes and
-- reads them. A file is the list of its lines.
pub mod Restore
pub mod Header
pub mod State
mod Examples
use koika.Prelude.{
  ℕ, zero, suc, ◌+◌, ◌*◌, ◌-◌, Bool, true, false, not, ◌&&◌, ◌||◌, Option, none, some, List, [],
  ◌∷◌, ◌++◌, ltb, leb, ◌==◌, if◌then◌else◌, ◌>>=◌,
}
use koika.Text.Format.{Prefix, fmt_bin}
use koika.Text.Number.{is_space, skip_spaces}

-- `dumpvar`, on a value that is a bit vector: no line, or one.
unfoldable pub dumpvar : ℕ → List ℕ → ℕ → ℕ → Bool → Option (List (List ℕ))
dumpvar sz name val previous force =
    if force || not (val == previous)
    then (fmt_bin sz val Prefix.minimal >>= λ text. some ((text ++ (0x20 ∷ name)) ∷ []))
    else some []

-- `$dumpvars`
abbrev pub dumpvars_mark : List ℕ
dumpvars_mark = 0x24 ∷ 0x64 ∷ 0x75 ∷ 0x6d ∷ 0x70 ∷ 0x76 ∷ 0x61 ∷ 0x72 ∷ 0x73 ∷ []

-- `line.rfind(prefix, 0) == 0`
abbrev pub starts_with : List ℕ → List ℕ → Bool
starts_with [] line = true
starts_with (c ∷ cs) [] = false
starts_with (c ∷ cs) (x ∷ xs) = c == x && starts_with cs xs

-- What is left after the header, and whether its end was found.
unfoldable pub read_header : List (List ℕ) → Bool × List (List ℕ)
read_header [] = (false, [])
read_header (line ∷ lines) =
    if starts_with dumpvars_mark line then (true, lines) else read_header lines

unfoldable pub first_word : List ℕ → List ℕ
first_word [] = []
first_word (c ∷ cs) = if is_space c then [] else c ∷ first_word cs

unfoldable pub after_word : List ℕ → List ℕ
after_word [] = []
after_word (c ∷ cs) = if is_space c then c ∷ cs else after_word cs

abbrev word_of : List ℕ → List ℕ → List ℕ × List ℕ
word_of old [] = (old, [])
word_of old (c ∷ cs) = (first_word (c ∷ cs), after_word (c ∷ cs))

-- `ls >> word`: the word and what is left; at the end of the line the word stays as it was.
unfoldable pub extract : List ℕ → List ℕ → List ℕ × List ℕ
extract old line = word_of old (skip_spaces line)

-- `cycle_id`, `name` and `val`, and the lines that are left.
pub record Reader : Type 0 where
  pub cycle_id : ℕ
  pub name : List ℕ
  pub val : List ℕ
  pub lines : List (List ℕ)

-- `ls >> cycle_id`, by the number that a stream reads from a text.
module _ (read_number : List ℕ → ℕ → ℕ) where
  -- Whether a value was found.
  unfoldable pub readvar : List (List ℕ) → Reader → Bool × Reader
  readvar [] r = (false, record r { lines = [] })
  readvar ([] ∷ lines) r = readvar lines r
  readvar ((c ∷ cs) ∷ lines) r =
      if c == 0x23
      then readvar lines (record r { cycle_id = read_number cs r.cycle_id })
      else let word = extract r.val (c ∷ cs) in
        (true, record r { name = (extract r.name word.1).0; val = word.0; lines = lines })
