-- ===== src/Text/Format/Output.antt =====
-- What the display functions of ocaml/backends/resources/cuttlesim.hpp send to a stream: `fmt`, `repr`,
-- `display`, `putstring` and `operator<<`.
use koika.Prelude.{
  ℕ, ◌%◌, ◌^◌, Bool, true, Option, some, List, [], ◌∷◌, ◌++◌, map, if◌then◌else◌, ◌>>=◌,
}
use koika.Text.Format.{Style, Prefix, bits_fmt, array_fmt, fmt_string}

pub record FmtOpts : Type 0 where
  pub strings : Bool
  pub newline : Bool
  pub style : Style

abbrev pub default_fmtopts : FmtOpts
default_fmtopts = record { strings = true; newline = true; style = Style.full }

-- `fmt` on a bit vector.
pub fmt_bits : ℕ → ℕ → FmtOpts → Option (List ℕ)
fmt_bits sz val opts = bits_fmt sz val opts.style Prefix.sized

-- `fmt` on an array of bit vectors that are not bytes; `array_fmt` passes the options on but for the
-- style.
pub fmt_array : ℕ → List ℕ → FmtOpts → Option (List ℕ)
fmt_array sz val opts =
    array_fmt (λ style v. fmt_bits sz v (record opts { style = style })) opts.style val

-- `fmt` on an array of bytes.
pub fmt_bytes : List ℕ → FmtOpts → Option (List ℕ)
unfolding fmt_array
fmt_bytes val opts = if opts.strings then some (fmt_string val) else fmt_array 8 val opts

-- `repr`, `operator<<` and `fmt` without options are `fmt` with these; `display` ends the line.
abbrev pub repr {ℓ} : {A : Type ℓ} → (A → FmtOpts → Option (List ℕ)) → A → Option (List ℕ)
repr fmt val = fmt val default_fmtopts

pub display {ℓ} : {A : Type ℓ} → (A → FmtOpts → Option (List ℕ)) → A → FmtOpts → Option (List ℕ)
display fmt msg opts = fmt msg opts >>= λ text. some (text ++ (0x0a ∷ []))

-- `static_cast<char>` of each byte, as a character code.
pub string_of_bytestring : List ℕ → List ℕ
string_of_bytestring val = map (λ v. v % 2 ^ 8) val

pub putstring : List ℕ → List ℕ
unfolding string_of_bytestring
putstring msg = string_of_bytestring msg
