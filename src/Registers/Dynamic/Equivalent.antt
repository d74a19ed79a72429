-- ===== src/Registers/Dynamic/Equivalent.antt =====
-- A dynamic log does what copying the logs does.
use mathlib.Core.Path.{fun_ext, ap₂}
use koika.Prelude.{
  ℕ, zero, suc, ◌+◌, ◌≤◌, ◌≡◌, refl, sym, ap, ◌∙◌, arith, Bool, true, false, Option, some, List, [],
  ◌∷◌, ◌++◌, length, length-append, lt→ltb, if◌then◌else◌, ◌>>=◌,
}
use koika.Registers.{Access, read0, read1, write0, write1}
use koika.Registers.Rule.{Rule, Log, Sim, Generated, store, mark, run}
use koika.Registers.Dynamic.{push, commit_dol, fail_dol, run_dol}
use koika.Registers.Dynamic.Outside.{
  apply_lem, Outside, weaken-Outside, store-Outside, mark-Outside,
}

-- A rule makes `n` accesses at most, on each of its paths.
abbrev pub Within : ℕ → Rule → Type 0
Within n Rule.commit = Unit
Within n Rule.fail = Unit
Within zero (Rule.rd0 r k) = ⊥
Within (suc n) (Rule.rd0 r k) = (v : ℕ) → Within n (k v)
Within zero (Rule.rd1 r k) = ⊥
Within (suc n) (Rule.rd1 r k) = (v : ℕ) → Within n (k v)
Within zero (Rule.wr0 r v k) = ⊥
Within (suc n) (Rule.wr0 r v k) = Within n k
Within zero (Rule.wr1 r v k) = ⊥
Within (suc n) (Rule.wr1 r v k) = Within n k

push_lem :
    (capacity n r : ℕ) (dlog : List ℕ)
    → length dlog + suc n ≤ capacity
    → (push capacity dlog r ≡ some (dlog ++ (r ∷ []))) × (length (dlog ++ (r ∷ [])) + n ≤ capacity)
unfolding push
push_lem capacity n r dlog h = (
  rw (lt→ltb (length dlog) capacity (omega (arith, h))) refl,
  omega (arith, h, length-append dlog (r ∷ [])),
)

module _ (g : Generated) where
  commit_dol-eq : (dlog : List ℕ) (s : Sim) → Outside dlog s → commit_dol dlog s ≡ g.commit_rule s
  unfolding commit_dol
  commit_dol-eq dlog s o =
      ap (λ (l : Log). record s { cycle_log = l })
        (apply_lem dlog s.cycle_log s.rule_log o.states o.rwsets)
      ∙ sym (g.commit_copies s)

  fail_dol-eq : (dlog : List ℕ) (s : Sim) → Outside dlog s → fail_dol dlog s ≡ g.reset_rule s
  unfolding fail_dol
  fail_dol-eq dlog s o =
      ap (λ (l : Log). record s { rule_log = l })
        (apply_lem dlog s.rule_log s.cycle_log (λ q h. sym (o.states q h))
          (λ q h. sym (o.rwsets q h)))
      ∙ sym (g.reset_copies s)

  -- What follows an access is the same if both ways to go on are.
  after_access :
      (access : Option Access) (f h : Access → Option (Bool × Sim)) (u v : Access → Sim)
      → ((a : Access) → f a ≡ h a)
      → ((a : Access) → u a ≡ v a)
      → (access >>= λ a. if a.ok then f a else some (false, u a))
        ≡ (access >>= λ a. if a.ok then h a else some (false, v a))
  after_access access f h u v e d =
      ap₂
        (λ (x : Access → Option (Bool × Sim)) (t : Access → Sim).
          access >>= λ a. if a.ok then x a else some (false, t a))
        (fun_ext e) (fun_ext d)

  run_dol-run_from :
      (capacity n : ℕ) (rule : Rule) (dlog : List ℕ) (s : Sim)
      → Within n rule
      → length dlog + n ≤ capacity
      → Outside dlog s
      → run_dol capacity rule dlog s ≡ run g rule s
  unfolding run_dol run
  run_dol-run_from capacity n Rule.commit dlog s w h o =
      ap (λ t. some (true, t)) (commit_dol-eq dlog s o)
  run_dol-run_from capacity n Rule.fail dlog s w h o =
      ap (λ t. some (false, t)) (fail_dol-eq dlog s o)
  run_dol-run_from capacity zero (Rule.rd0 r k) dlog s w h o = absurd w
  run_dol-run_from capacity (suc n) (Rule.rd0 r k) dlog s w h o =
      let (pushed, room) = push_lem capacity n r dlog h in
      let o' = weaken-Outside dlog r s o in
      rw pushed (
        after_access (read0 (s.cycle_log.state r) (s.rule_log.rwset r) (s.cycle_log.rwset r)) _ _ _
          _ (λ a. run_dol-run_from capacity n (k a.value) (dlog ++ (r ∷ [])) s (w a.value) room o')
          (λ a. fail_dol-eq (dlog ++ (r ∷ [])) s o'))
  run_dol-run_from capacity zero (Rule.rd1 r k) dlog s w h o = absurd w
  run_dol-run_from capacity (suc n) (Rule.rd1 r k) dlog s w h o =
      let (pushed, room) = push_lem capacity n r dlog h in
      rw pushed (
        after_access (read1 (s.rule_log.state r) (s.rule_log.rwset r) (s.cycle_log.rwset r)) _ _ _ _
          (λ a.
            run_dol-run_from capacity n (k a.value) (dlog ++ (r ∷ [])) (mark s r a) (w a.value) room
              (mark-Outside dlog r s a o))
          (λ a. fail_dol-eq (dlog ++ (r ∷ [])) (mark s r a) (mark-Outside dlog r s a o)))
  run_dol-run_from capacity zero (Rule.wr0 r v k) dlog s w h o = absurd w
  run_dol-run_from capacity (suc n) (Rule.wr0 r v k) dlog s w h o =
      let (pushed, room) = push_lem capacity n r dlog h in
      rw pushed (
        after_access (write0 v (s.rule_log.rwset r)) _ _ _ _
          (λ a.
            run_dol-run_from capacity n k (dlog ++ (r ∷ [])) (store s r a) w room
              (store-Outside dlog r s a o))
          (λ a. fail_dol-eq (dlog ++ (r ∷ [])) (store s r a) (store-Outside dlog r s a o)))
  run_dol-run_from capacity zero (Rule.wr1 r v k) dlog s w h o = absurd w
  run_dol-run_from capacity (suc n) (Rule.wr1 r v k) dlog s w h o =
      let (pushed, room) = push_lem capacity n r dlog h in
      rw pushed (
        after_access (write1 v (s.rule_log.rwset r)) _ _ _ _
          (λ a.
            run_dol-run_from capacity n k (dlog ++ (r ∷ [])) (store s r a) w room
              (store-Outside dlog r s a o))
          (λ a. fail_dol-eq (dlog ++ (r ∷ [])) (store s r a) (store-Outside dlog r s a o)))

  -- From equal logs, with room for as many entries as the rule makes accesses on any of its paths, a
  -- rule with a dynamic log does what the rule does that copies logs: it commits or fails alike, and
  -- leaves the same logs.
  pub run_dol-run :
      (capacity : ℕ) (rule : Rule) (s : Sim)
      → Within capacity rule
      → s.rule_log ≡ s.cycle_log
      → run_dol capacity rule [] s ≡ run g rule s
  run_dol-run capacity rule s w same =
      run_dol-run_from capacity capacity rule [] s w (omega arith) (record {
        states = λ q h. ap (λ (l : Log). l.state q) (sym same);
        rwsets = λ q h. ap (λ (l : Log). l.rwset q) (sym same);
      })
