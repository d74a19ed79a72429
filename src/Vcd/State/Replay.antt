-- ===== src/Vcd/State/Replay.antt =====
-- Lines that `vcd_dumpvars` has written, read back.
use mathlib.Core.List.{append_assoc}
use mathlib.Core.Path.{subst, subst₂}
use koika.Prelude.{
  ℕ, ◌^◌, ◌<◌, ◌≡◌, refl, sym, ap, ◌∙◌, arith, Bool, true, false, ◌⊎◌, inl, inr, not, ◌||◌, some,
  List, [], ◌∷◌, ◌++◌, All, length, length-append, Bool-cases, ◌==◌,
}
use koika.Vcd.{readvar, Reader}
use koika.Vcd.Header.{Register}
use koika.Text.Number.{decimal, read_number, read_number-decimal}
use koika.Vcd.State.{same, dumpvar_lines, vcd_dumpvars, assign, readvars, AreRegisters, Fits}
use koika.Vcd.State.Turns.{readvars_stamp, readvars_value}
use koika.Vcd.State.Lines.{IsApart, assign_at, line_back, no_line}

-- The reader's values of the registers are those that `dumpvar` compares with, or all are written.
abbrev pub Synced : Bool → List ℕ → List ℕ → Type 0
Synced force ps qs = (force ≡ true) ⊎ (ps ≡ qs)

heads : (p q : ℕ) (ps qs : List ℕ) → p ∷ ps ≡ q ∷ qs → (p ≡ q) × (ps ≡ qs)
heads p q ps qs e = (cc, cc)

Synced-tail :
    (force : Bool) (p q : ℕ) (ps qs : List ℕ) → Synced force (p ∷ ps) (q ∷ qs) → Synced force ps qs
Synced-tail force p q ps qs (inl all) = inl all
Synced-tail force p q ps qs (inr e) = inr (heads p q ps qs e).1

kept :
    (force : Bool) (p q : ℕ) (ps qs : List ℕ)
    → Synced force (p ∷ ps) (q ∷ qs)
    → force ≡ false
    → p ≡ q
kept force p q ps qs (inl all) h = cc
kept force p q ps qs (inr e) h = (heads p q ps qs e).0

-- The names of the registers to come differ from those that are done.
abbrev AreApart : List Register → List Register → Type 0
AreApart done todo = All (λ (x : Register). IsApart done x.name) todo

AreApart-next :
    (done : List Register) (x : Register) (xs : List Register)
    → AreApart done xs
    → All (λ (y : Register). same y.name x.name ≡ false) xs
    → AreApart (done ++ (x ∷ [])) xs
AreApart-next done x [] h k = tt
AreApart-next done x (y ∷ ys) h k = (snoc done h.0, AreApart-next done x ys h.1 k.1)
  where
    snoc : (ds : List Register) → IsApart ds y.name → IsApart (ds ++ (x ∷ [])) y.name
    snoc [] t = (k.0, tt)
    snoc (d ∷ ds) t = (t.0, snoc ds t.1)

-- After lines of `dumpvar` have been read, the reader is at the `rest`, with these values.
abbrev Reaches : List Register → List (List ℕ) → List ℕ → List ℕ → Type 0
Reaches regs ls s t =
    (r : Reader) (rest : List (List ℕ))
    → (r' : Reader) × (readvars regs (record r { lines = ls ++ rest }) s
        ≡ readvars regs (record r' { lines = rest; cycle_id = r.cycle_id }) t)

Reaches-line :
    (regs : List Register) (name line val : List ℕ) (ls : List (List ℕ)) (s m t : List ℕ)
    → ((r : Reader) (lines : List (List ℕ))
        → readvar read_number (line ∷ lines) r
          ≡ (true, record { cycle_id = r.cycle_id; name = name; val = val; lines = lines }))
    → assign regs name val s ≡ some m
    → Reaches regs ls m t
    → Reaches regs (line ∷ ls) s t
Reaches-line regs name line val ls s m t read stored later r rest =
    let next : Reader = record {
      cycle_id = r.cycle_id;
      name = name;
      val = val;
      lines = ls ++ rest;
    } in
    let (r', e) = later next rest in
    (
      r',
      readvars_value regs (record r { lines = line ∷ (ls ++ rest) }) next s m
            (read (record r { lines = line ∷ (ls ++ rest) }) (ls ++ rest)) stored (omega arith)
          ∙ e,
    )

length-snoc :
    (done : List Register) (cs : List ℕ) (x : Register) (v : ℕ)
    → length done ≡ length cs
    → length (done ++ (x ∷ [])) ≡ length (cs ++ (v ∷ []))
length-snoc done cs x v h = omega (arith, h, length-append done (x ∷ []), length-append cs (v ∷ []))

-- The lines of the registers that are left are printed, and read back.
dumpvar_lines-Reaches :
    (regs done todo : List Register) (cs vs ps qs : List ℕ) (force : Bool)
    → regs ≡ done ++ todo
    → length done ≡ length cs
    → AreRegisters todo
    → AreApart done todo
    → Fits todo vs
    → length ps ≡ length todo
    → length qs ≡ length todo
    → Synced force ps qs
    → (ls : List (List ℕ)) × (dumpvar_lines todo vs qs force ≡ some ls)
      × Reaches regs ls (cs ++ ps) (cs ++ vs)
unfolding dumpvar_lines
dumpvar_lines-Reaches regs done [] cs [] [] [] force e h g a f lp lq y =
    ([], refl, λ r rest. (r, refl))
dumpvar_lines-Reaches regs done [] cs [] [] (q ∷ qs) force e h g a f lp lq y =
    absurd (omega (arith, lq))
dumpvar_lines-Reaches regs done [] cs [] (p ∷ ps) qs force e h g a f lp lq y =
    absurd (omega (arith, lp))
dumpvar_lines-Reaches regs done [] cs (v ∷ vs) ps qs force e h g a f lp lq y = absurd f
dumpvar_lines-Reaches regs done (x ∷ xs) cs [] ps qs force e h g a f lp lq y = absurd f
dumpvar_lines-Reaches regs done (x ∷ xs) cs (v ∷ vs) [] qs force e h g a f lp lq y =
    absurd (omega (arith, lp))
dumpvar_lines-Reaches regs done (x ∷ xs) cs (v ∷ vs) (p ∷ ps) [] force e h g a f lp lq y =
    absurd (omega (arith, lq))
dumpvar_lines-Reaches regs done (x ∷ xs) cs (v ∷ vs) (p ∷ ps) (q ∷ qs) force e h g a f lp lq y =
    let (ls, printed, back) =
      dumpvar_lines-Reaches regs (done ++ (x ∷ [])) xs (cs ++ (v ∷ [])) vs ps qs force
        (e ∙ sym (append_assoc done (x ∷ []) xs)) (length-snoc done cs x v h) g.4
        (AreApart-next done x xs a.1 g.3) f.1 (omega (arith, lp)) (omega (arith, lq))
        (Synced-tail force p q ps qs y) in
    let back' : Reaches regs ls (cs ++ (v ∷ ps)) (cs ++ (v ∷ vs)) =
      subst₂ (Reaches regs ls) (append_assoc cs (v ∷ []) ps) (append_assoc cs (v ∷ []) vs) back in
    elim (Bool-cases (force || not (v == q))) [
      | inl written ↦
          let (line, val, dumped, value, read) =
            line_back x.name x.width v q force g.2 g.0 g.1 f.0 written in
          (
            line ∷ ls,
            rw (dumped, printed) refl,
            Reaches-line regs x.name line val ls _ _ _ read
                (ap (λ t. assign t x.name val (cs ++ (p ∷ ps))) e
                  ∙ assign_at done cs x xs val v p ps h a.0 value)
                back',
          )
      | inr quiet ↦
          let (none_dumped, same_value, lazy) = no_line x.name x.width v q force quiet in
          (
            ls,
            rw (none_dumped, printed) refl,
            subst (λ t. Reaches regs ls (cs ++ (t ∷ ps)) (cs ++ (v ∷ vs)))
                (same_value ∙ sym (kept force p q ps qs y lazy)) back',
          )
    ]

Fits-length : (regs : List Register) (vs : List ℕ) → Fits regs vs → length vs ≡ length regs
Fits-length [] [] f = refl
Fits-length [] (v ∷ vs) f = absurd f
Fits-length (r ∷ rs) [] f = absurd f
Fits-length (r ∷ rs) (v ∷ vs) f = omega (arith, Fits-length rs vs f.1)

nothing_done : (regs : List Register) → AreApart [] regs
nothing_done [] = tt
nothing_done (r ∷ rs) = (tt, nothing_done rs)

-- Reading these lines takes a reader from a state to another, and to a cycle.
abbrev pub Leads : List Register → List (List ℕ) → List ℕ → ℕ → List ℕ → Type 0
Leads regs ls s cycle_id t =
    (r : Reader) (rest : List (List ℕ))
    → (r' : Reader) × (readvars regs (record r { lines = ls ++ rest }) s
        ≡ readvars regs (record r' { lines = rest; cycle_id = cycle_id }) t)

pub Leads-append :
    (regs : List Register) (ls ms : List (List ℕ)) (s : List ℕ) (c : ℕ) (t : List ℕ) (d : ℕ)
    (u : List ℕ)
    → Leads regs ls s c t
    → Leads regs ms t d u
    → Leads regs (ls ++ ms) s d u
Leads-append regs ls ms s c t d u first then_ r rest =
    let (r₁, e₁) = first r (ms ++ rest) in
    let (r₂, e₂) = then_ (record r₁ { cycle_id = c }) rest in
    (r₂, ap (λ t. readvars regs (record r { lines = t }) s) (append_assoc ls ms rest) ∙ e₁ ∙ e₂)

-- A dump of values that fit leads from the values dumped before to these, or from any values if it is
-- forced.
pub vcd_dumpvars-Leads :
    (regs : List Register) (cycle_id : ℕ) (vs ps qs : List ℕ) (force : Bool)
    → AreRegisters regs
    → cycle_id < 2 ^ 64
    → Fits regs vs
    → Fits regs ps
    → Fits regs qs
    → Synced force ps qs
    → (ls : List (List ℕ)) × (vcd_dumpvars regs cycle_id vs qs force ≡ some ls)
      × Leads regs ls ps cycle_id vs
unfolding vcd_dumpvars
vcd_dumpvars-Leads regs cycle_id vs ps qs force g c f fp fq y =
    let (ls, printed, back) =
      dumpvar_lines-Reaches regs [] regs [] vs ps qs force refl refl g (nothing_done regs) f
        (Fits-length regs ps fp) (Fits-length regs qs fq) y in
    (
      (0x23 ∷ decimal cycle_id) ∷ ls,
      rw printed refl,
      λ r rest.
          let stamped : Reader = record r {
            lines = ls ++ rest;
            cycle_id = read_number (decimal cycle_id) r.cycle_id;
          } in
          let (r', e) = back stamped rest in
          (
            r',
            readvars_stamp regs (decimal cycle_id) (ls ++ rest) r ps
                ∙ e
                ∙ ap (λ n. readvars regs (record r' { lines = rest; cycle_id = n }) vs)
                    (read_number-decimal cycle_id r.cycle_id c),
          ),
    )
