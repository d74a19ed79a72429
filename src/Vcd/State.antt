-- ===== src/Vcd/State.antt =====
-- The registers of a design in a VCD file: `vcd_dumpvars` and `vcd_readvars`, which
-- ocaml/backends/cpp.ml prints for a design on the functions of `cuttlesim::vcd`. A state is the list
-- of the registers' values, in the order of `state_t`, each as its packed bits.
pub mod Read
pub mod Turns
pub mod Lines
pub mod Replay
mod Examples
use koika.Prelude.{
  ℕ, zero, suc, ◌-◌, ◌^◌, ◌<◌, ◌≤◌, ◌≡◌, Bool, true, false, ◌&&◌, Option, none, some, List, [], ◌∷◌,
  ◌++◌, All, length, ◌==◌, if◌then◌else◌, ◌>>=◌,
}
use koika.Text.{of_str}
use koika.Vcd.{dumpvar, read_header, readvar, Reader}
use koika.Text.Number.{is_space}
use koika.Vcd.Header.{Register}
use koika.Text.Number.{decimal, read_number}

unfoldable pub same : List ℕ → List ℕ → Bool
same [] [] = true
same [] (y ∷ ys) = false
same (x ∷ xs) [] = false
same (x ∷ xs) (y ∷ ys) = x == y && same xs ys

-- The calls of `dumpvar`, one for each register.
pub dumpvar_lines : List Register → List ℕ → List ℕ → Bool → Option (List (List ℕ))
dumpvar_lines (r ∷ rs) (v ∷ vs) (p ∷ ps) force = do
  line ← dumpvar r.width r.name v p force
  lines ← dumpvar_lines rs vs ps force
  some (line ++ lines)
dumpvar_lines rs vs ps force = some []

unfoldable pub vcd_dumpvars : List Register → ℕ → List ℕ → List ℕ → Bool → Option (List (List ℕ))
vcd_dumpvars regs cycle_id current previous force =
    dumpvar_lines regs current previous force >>= λ lines. some ((0x23 ∷ decimal cycle_id) ∷ lines)

-- `if (var == "name") name = of_str(val); else if …`
pub assign : List Register → List ℕ → List ℕ → List ℕ → Option (List ℕ)
assign (r ∷ rs) var val (v ∷ vs) =
    let others = assign rs var val vs >>= λ vs'. some (v ∷ vs') in
    if same var r.name then (of_str r.width val >>= λ v'. some (v' ∷ vs)) else others
assign rs var val vs = some vs

-- `while (readvar(is, cycle_id, var, val))`: `none` if the fuel runs out. A turn but the last takes
-- a line.
pub readvars_loop : List Register → ℕ → Reader → List ℕ → Option (ℕ × List ℕ)
readvars_loop regs zero r vs = none
readvars_loop regs (suc fuel) r vs =
    let next = readvar read_number r.lines r in
    let more = assign regs next.1.name next.1.val vs >>= readvars_loop regs fuel next.1 in
    if next.0 then more else some (next.1.cycle_id, vs)

pub readvars : List Register → Reader → List ℕ → Option (ℕ × List ℕ)
unfolding readvars_loop
readvars regs r vs = readvars_loop regs (suc (length r.lines)) r vs

-- `vcd_readvars`: the cycle, and the registers that the file leaves in a state.
unfoldable pub vcd_readvars : List Register → List (List ℕ) → List ℕ → Option (ℕ × List ℕ)
unfolding readvars
vcd_readvars regs file vs =
    readvars regs
      (record { cycle_id = 2 ^ 64 - 1; name = []; val = []; lines = (read_header file).1 }) vs

-- A word has no space in it.
abbrev pub IsName : List ℕ → Type 0
IsName [] = ⊥
IsName (c ∷ cs) = All (λ x. is_space x ≡ false) (c ∷ cs)

-- The registers have 1 to 64 bits and different names.
abbrev pub AreRegisters : List Register → Type 0
AreRegisters [] = Unit
AreRegisters (r ∷ rs) =
    (0 < r.width)
    × (r.width ≤ 64)
    × IsName r.name
    × All (λ (x : Register). same x.name r.name ≡ false) rs
    × AreRegisters rs

-- A value for each register, which fits its width.
abbrev pub Fits : List Register → List ℕ → Type 0
Fits [] [] = Unit
Fits [] (v ∷ vs) = ⊥
Fits (r ∷ rs) [] = ⊥
Fits (r ∷ rs) (v ∷ vs) = (v < 2 ^ r.width) × Fits rs vs
