-- ===== src/Vcd/State/Turns.antt =====
-- The turns of the loop of `vcd_readvars`: a stamp, a value, and the end of the file.
use mathlib.Core.Path.{fun_ext}
use koika.Prelude.{
  ℕ, zero, suc, ◌<◌, ◌≤◌, ◌≡◌, refl, sym, ap, ◌∙◌, arith, Bool, true, false, ◌⊎◌, inl, inr, some,
  List, [], ◌∷◌, length, Bool-cases, ◌==◌, Option, ◌>>=◌, if◌then◌else◌,
}
use koika.Vcd.{readvar, Reader}
use koika.Vcd.Header.{Register}
use koika.Text.Number.{read_number}
use koika.Vcd.State.{assign, readvars_loop, readvars}
use koika.Vcd.State.Read.{readvar-shorter}

-- Any fuel above the number of lines gives the same.
fuel_lem :
    (regs : List Register) (f g : ℕ) (r : Reader) (vs : List ℕ)
    → length r.lines < f
    → length r.lines < g
    → readvars_loop regs f r vs ≡ readvars_loop regs g r vs
unfolding readvars_loop
fuel_lem regs zero g r vs h k = absurd (omega (arith, h))
fuel_lem regs (suc f) zero r vs h k = absurd (omega (arith, k))
fuel_lem regs (suc f) (suc g) r vs h k =
    let (found, next) = readvar read_number r.lines r in
    elim (Bool-cases found) [
      | inl turn ↦
          let less = shorter turn (readvar-shorter r.lines r) in
          rw turn (
            ap (λ (m : List ℕ → Option (ℕ × List ℕ)). assign regs next.name next.val vs >>= m)
              (fun_ext (λ ws.
                fuel_lem regs f g next ws (omega (arith, less, h)) (omega (arith, less, k)))))
      | inr stop ↦ rw stop refl
    ]
  where
    shorter :
        (readvar read_number r.lines r).0 ≡ true
        → ((readvar read_number r.lines r).0 ≡ false)
          ⊎ (suc (length (readvar read_number r.lines r).1.lines) ≤ length r.lines)
        → suc (length (readvar read_number r.lines r).1.lines) ≤ length r.lines
    shorter found (inl stop) = cc
    shorter found (inr less) = less

-- What `readvar` gives does not depend on the lines that the reader held.
readvar_lines :
    (lines held : List (List ℕ)) (r : Reader)
    → readvar read_number lines (record r { lines = held }) ≡ readvar read_number lines r
unfolding readvar
readvar_lines [] held r = refl
readvar_lines ([] ∷ lines) held r = readvar_lines lines held r
readvar_lines ((c ∷ cs) ∷ lines) held r = elim (Bool-cases (c == 0x23)) [
  | inl stamp ↦
      rw stamp (readvar_lines lines held (record r { cycle_id = read_number cs r.cycle_id }))
  | inr value ↦ rw value refl
]

-- A turn depends on what `readvar` gives, only.
readvars_loop_turn :
    (regs : List Register) (f : ℕ) (r q : Reader) (vs : List ℕ)
    → readvar read_number r.lines r ≡ readvar read_number q.lines q
    → readvars_loop regs (suc f) r vs ≡ readvars_loop regs (suc f) q vs
unfolding readvars_loop
readvars_loop_turn regs f r q vs h = ap turn h
  where
    turn : Bool × Reader → Option (ℕ × List ℕ)
    turn next =
        let more = assign regs next.1.name next.1.val vs >>= readvars_loop regs f next.1 in
        if next.0 then more else some (next.1.cycle_id, vs)

pub readvars_stamp :
    (regs : List Register) (cs : List ℕ) (lines : List (List ℕ)) (r : Reader) (vs : List ℕ)
    → readvars regs (record r { lines = (0x23 ∷ cs) ∷ lines }) vs
      ≡ readvars regs (record r { lines = lines; cycle_id = read_number cs r.cycle_id }) vs
unfolding readvars
readvars_stamp regs cs lines r vs =
    readvars_loop_turn regs (suc (length lines)) (record r { lines = (0x23 ∷ cs) ∷ lines }) later vs
      (unfold readvar in
        readvar_lines lines ((0x23 ∷ cs) ∷ lines)
          (record r { cycle_id = read_number cs r.cycle_id })
        ∙ sym (readvar_lines lines lines (record r { cycle_id = read_number cs r.cycle_id })))
    ∙ fuel_lem regs (suc (suc (length lines))) (suc (length lines)) later vs (omega arith)
        (omega arith)
  where
    later : Reader
    later = record r { lines = lines; cycle_id = read_number cs r.cycle_id }

pub readvars_end :
    (regs : List Register) (r : Reader) (vs : List ℕ)
    → r.lines ≡ []
    → readvars regs r vs ≡ some (r.cycle_id, vs)
unfolding readvars readvars_loop
readvars_end regs r vs h = rw h (unfold readvar in refl)

pub readvars_value :
    (regs : List Register) (r r' : Reader) (vs ws : List ℕ)
    → readvar read_number r.lines r ≡ (true, r')
    → assign regs r'.name r'.val vs ≡ some ws
    → suc (length r'.lines) ≤ length r.lines
    → readvars regs r vs ≡ readvars regs r' ws
unfolding readvars readvars_loop
readvars_value regs r r' vs ws read done less =
    rw (read, done)
      (fuel_lem regs (length r.lines) (suc (length r'.lines)) r' ws less (omega arith))
