-- ===== src/Vcd/Header.antt =====
-- The header of a VCD file: `begin_header`, `var` and `end_header` of
-- ocaml/backends/resources/cuttlesim.hpp, and `vcd_header`, which ocaml/backends/cpp.ml prints for a
-- design. The date, which comes from the system's clock, is an argument; a line is without its end.
use koika.Prelude.{ℕ, ◌-◌, ◌≡◌, refl, ◌∙◌, true, List, [], ◌∷◌, ◌++◌, ltb, codes, if◌then◌else◌}
use koika.Vcd.{read_header}
use koika.Text.Number.{decimal}

-- A register of a design, as `var` declares it; `width` is the size of its packed value.
pub record Register : Type 0 where
  pub name : List ℕ
  pub width : ℕ

abbrev version : List ℕ
version = codes "CuttleSim v0.0.1"

scope_line : List ℕ → List ℕ
scope_line scope = codes "$scope module " ++ (scope ++ codes " $end")

scope_lines : List (List ℕ) → List (List ℕ) → List (List ℕ)
unfolding scope_line
scope_lines [] rest = rest
scope_lines (scope ∷ scopes) rest = scope_line scope ∷ scope_lines scopes rest

-- `begin_header`, with the lines that follow it.
unfoldable begin_header : List ℕ → List (List ℕ) → List (List ℕ) → List (List ℕ)
unfolding scope_lines
begin_header date scopes rest =
    (codes "$date " ++ (date ++ codes " $end"))
    ∷ (codes "$version " ++ (version ++ codes " $end"))
    ∷ codes "$timescale 1 ns $end"
    ∷ scope_lines scopes rest

upscope_lines : List (List ℕ) → List (List ℕ) → List (List ℕ)
upscope_lines [] rest = rest
upscope_lines (scope ∷ scopes) rest = codes "$upscope $end" ∷ upscope_lines scopes rest

unfoldable end_header : List (List ℕ) → List (List ℕ) → List (List ℕ)
unfolding upscope_lines
end_header scopes rest =
    upscope_lines scopes (codes "$enddefinitions $end" ∷ codes "$dumpvars" ∷ rest)

range_of : ℕ → List ℕ
range_of sz = if ltb 1 sz then codes " [" ++ (decimal (sz - 1) ++ codes ":0]") else []

unfoldable var : List ℕ → ℕ → List ℕ
unfolding range_of
var name sz =
    codes "$var wire "
    ++ (decimal sz ++ (0x20 ∷ name ++ (0x20 ∷ name ++ (range_of sz ++ codes " $end"))))

var_lines : List Register → List (List ℕ) → List (List ℕ)
unfolding var
var_lines [] rest = rest
var_lines (r ∷ rs) rest = var r.name r.width ∷ var_lines rs rest

pub vcd_header : List ℕ → List (List ℕ) → List Register → List (List ℕ) → List (List ℕ)
unfolding begin_header end_header var_lines
vcd_header date scopes regs rest =
    begin_header date scopes (var_lines regs (end_header scopes rest))

read_header-scope_lines :
    (scopes rest : List (List ℕ)) → read_header (scope_lines scopes rest) ≡ read_header rest
unfolding read_header scope_lines
read_header-scope_lines [] rest = refl
read_header-scope_lines (scope ∷ scopes) rest = read_header-scope_lines scopes rest

read_header-var_lines :
    (regs : List Register) (rest : List (List ℕ))
    → read_header (var_lines regs rest) ≡ read_header rest
unfolding read_header var_lines
read_header-var_lines [] rest = refl
read_header-var_lines (r ∷ rs) rest = read_header-var_lines rs rest

read_header-upscope_lines :
    (scopes rest : List (List ℕ)) → read_header (upscope_lines scopes rest) ≡ read_header rest
unfolding read_header upscope_lines
read_header-upscope_lines [] rest = refl
read_header-upscope_lines (scope ∷ scopes) rest = read_header-upscope_lines scopes rest

-- `read_header` stops right after the header, whatever its date, scopes and registers are.
pub read_header-vcd_header :
    (date : List ℕ) (scopes : List (List ℕ)) (regs : List Register) (rest : List (List ℕ))
    → read_header (vcd_header date scopes regs rest) ≡ (true, rest)
unfolding vcd_header read_header
read_header-vcd_header date scopes regs rest =
    read_header-scope_lines scopes _
    ∙ read_header-var_lines regs _
    ∙ read_header-upscope_lines scopes _
