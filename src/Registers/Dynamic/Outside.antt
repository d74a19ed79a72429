-- ===== src/Registers/Dynamic/Outside.antt =====
-- The logs of a rule and of the cycle are the same outside of the registers in the dynamic log.
use mathlib.Core.Path.{fun_ext, ap₂}
use koika.Prelude.{
  ℕ, ◌≡◌, refl, sym, ap, ◌∙◌, arith, Bool, false, ◌||◌, List, [], ◌∷◌, ◌++◌, ◌==◌, inl, inr,
  cases_eq, if-false,
}
use koika.Registers.{Access}
use koika.Registers.Rule.{Log, Sim, update, store, mark}
use koika.Registers.Dynamic.{copy_register, apply}

unfoldable pub mem : ℕ → List ℕ → Bool
mem q [] = false
mem q (r ∷ rs) = q == r || mem q rs

mem-snoc :
    (q r : ℕ) (rs : List ℕ)
    → mem q (rs ++ (r ∷ [])) ≡ false
    → (mem q rs ≡ false) × ((q == r) ≡ false)
unfolding mem
mem-snoc q r [] h = (refl, ground (arith, h))
mem-snoc q r (x ∷ xs) h = ground (arith, h, mem-snoc q r xs)

-- The values at each place that is not in the list are the same.
abbrev pub Agree {ℓ} : {A : Type ℓ} → List ℕ → (ℕ → A) → (ℕ → A) → Type ℓ
Agree dlog f g = (q : ℕ) → mem q dlog ≡ false → f q ≡ g q

update-Agree {ℓ} :
    {A : Type ℓ} (r : ℕ) (rs : List ℕ) (f g : ℕ → A)
    → Agree (r ∷ rs) f g
    → Agree rs (update f r (g r)) g
unfolding mem
update-Agree r rs f g h q out = elim (cases_eq q r) [
  | inl (same, test) ↦ rw test (ap g (sym same))
  | inr other ↦ rw other (h q (ground (arith, other, out)))
]

pub apply_lem :
    (dlog : List ℕ) (dst src : Log)
    → Agree dlog dst.state src.state
    → Agree dlog dst.rwset src.rwset
    → apply dlog dst src ≡ src
unfolding apply mem
apply_lem [] dst src h k =
    ap₂ (λ s w. record { state = s; rwset = w }) (fun_ext (λ q. h q refl)) (fun_ext (λ q. k q refl))
apply_lem (r ∷ dlog) dst src h k =
    apply_lem dlog (copy_register r dst src) src (update-Agree r dlog dst.state src.state h)
      (update-Agree r dlog dst.rwset src.rwset k)

pub record Outside (dlog : List ℕ) (s : Sim) : Type 0 where
  pub states : Agree dlog s.cycle_log.state s.rule_log.state
  pub rwsets : Agree dlog s.cycle_log.rwset s.rule_log.rwset

untouched {ℓ} :
    {A : Type ℓ} (dlog : List ℕ) (r : ℕ) (f g : ℕ → A) (v : A)
    → Agree dlog f g
    → Agree (dlog ++ (r ∷ [])) f (update g r v)
untouched dlog r f g v h q out =
    let (before, other) = mem-snoc q r dlog out in h q before ∙ sym (if-false _ _ _ other)

weaken {ℓ} :
    {A : Type ℓ} (dlog : List ℕ) (r : ℕ) (f g : ℕ → A)
    → Agree dlog f g
    → Agree (dlog ++ (r ∷ [])) f g
weaken dlog r f g h q out = h q (mem-snoc q r dlog out).0

pub weaken-Outside :
    (dlog : List ℕ) (r : ℕ) (s : Sim) → Outside dlog s → Outside (dlog ++ (r ∷ [])) s
weaken-Outside dlog r s o = record {
  states = weaken dlog r s.cycle_log.state s.rule_log.state o.states;
  rwsets = weaken dlog r s.cycle_log.rwset s.rule_log.rwset o.rwsets;
}

pub store-Outside :
    (dlog : List ℕ) (r : ℕ) (s : Sim) (a : Access)
    → Outside dlog s
    → Outside (dlog ++ (r ∷ [])) (store s r a)
unfolding store
store-Outside dlog r s a o = record {
  states = untouched dlog r s.cycle_log.state s.rule_log.state a.value o.states;
  rwsets = untouched dlog r s.cycle_log.rwset s.rule_log.rwset a.rwset o.rwsets;
}

pub mark-Outside :
    (dlog : List ℕ) (r : ℕ) (s : Sim) (a : Access)
    → Outside dlog s
    → Outside (dlog ++ (r ∷ [])) (mark s r a)
unfolding mark
mark-Outside dlog r s a o = record {
  states = weaken dlog r s.cycle_log.state s.rule_log.state o.states;
  rwsets = untouched dlog r s.cycle_log.rwset s.rule_log.rwset a.rwset o.rwsets;
}
