-- ===== src/Compiler/Load.antt =====
-- Values put into the cycle's log only, as `load` of examples/save_restore.v.etc/save_restore.cpp does:
-- `Log.state.vcd_readvars` leaves the rule's log as it was. What COMMIT, by its footprint, makes of
-- them.
use koika.Prelude.{
  ℕ, ◌==◌, ◌≡◌, refl, sym, ap, ◌∙◌, Bool, true, false, ◌&&◌, ◌||◌, Option, some, List, [], ◌∷◌, inl,
  inr, if◌then◌else◌, if-true, if-false, Bool-cases, >>=-eq-some, arith,
}
use koika.Registers.{read0, read1, write0, write1}
use koika.Registers.Rule.{Sim, Log, update, store, mark}
use koika.Registers.Dynamic.Outside.{mem}
use koika.Compiler.Action.{Histories}
use koika.Compiler.Code.{
  Code, is_value, copy_registers, large_footprint, needs_rwdata, rwdata_footprint, rwset_footprint,
  commit_reset, write_fast, run_code,
}
use koika.Compiler.Footprint.{mem-filter_registers, copy_registers_lem}
use koika.Compiler.History.{RegisterKind}

unfoldable pub load_log : (ℕ → ℕ) → Sim → Sim
load_log values s = record s { cycle_log = record s.cycle_log { state = values } }

-- On no path does the code of a rule write a register.
abbrev pub NeverWrites : ℕ → Code → Type 0
NeverWrites r Code.commit = Unit
NeverWrites r (Code.fail h) = Unit
NeverWrites r (Code.rd0 h q k) = (v : ℕ) → NeverWrites r (k v)
NeverWrites r (Code.rd1 h q k) = (v : ℕ) → NeverWrites r (k v)
NeverWrites r (Code.wr0 h q v k) = ((r == q) ≡ false) × NeverWrites r k
NeverWrites r (Code.wr1 h q v k) = ((r == q) ≡ false) × NeverWrites r k

-- A register that is not in the list keeps its value.
copy_registers-skip {ℓ} :
    {A : Type ℓ} (rs : List ℕ) (src dst : ℕ → A) (q : ℕ)
    → mem q rs ≡ false
    → copy_registers rs src dst q ≡ dst q
unfolding copy_registers mem
copy_registers-skip [] src dst q out = refl
copy_registers-skip (r ∷ rs) src dst q out =
    copy_registers-skip rs src (update dst r (src r)) q (ground (arith, out))
    ∙ if-false (q == r) _ _ (ground (arith, out))

copy_registers-if {ℓ} :
    {A : Type ℓ} (rs : List ℕ) (src dst : ℕ → A) (q : ℕ)
    → copy_registers rs src dst q ≡ (if mem q rs then src q else dst q)
copy_registers-if rs src dst q = elim (Bool-cases (mem q rs)) [
  | inl within ↦ rw within (copy_registers_lem rs src dst q (λ out. cc))
  | inr out ↦ rw out (copy_registers-skip rs src dst q out)
]

module _ (registers : List ℕ) (kinds : ℕ → RegisterKind) (final : Histories) (r : ℕ) where
  -- COMMIT copies the value of the register.
  abbrev pub is_copied : Bool
  is_copied =
      large_footprint registers kinds final (rwdata_footprint registers kinds final)
      || (mem r registers && needs_rwdata registers kinds final r)

  commit_reset-is_copied :
      (src dst : Log)
      → (commit_reset registers kinds final src dst).state r
        ≡ (if is_copied then src.state r else dst.state r)
  unfolding commit_reset
  commit_reset-is_copied src dst =
      elim (Bool-cases
        (large_footprint registers kinds final (rwdata_footprint registers kinds final))) [
          | inl large ↦
              elim (Bool-cases
                (large_footprint registers kinds final (rwset_footprint registers kinds final))) [
                  | inl sets ↦ rw (large, sets) refl
                  | inr sets ↦ rw (large, sets) refl
                ]
          | inr small ↦ rw small (
              copy_registers-if (rwdata_footprint registers kinds final) src.state dst.state r
              ∙ ap (λ b. if b then src.state r else dst.state r)
                  (mem-filter_registers r (needs_rwdata registers kinds final) registers))
        ]

  run_if :
      (ok : Bool) (x : Option (Bool × Sim)) (t s' : Sim)
      → (if ok then x else some (false, t)) ≡ some (true, s')
      → x ≡ some (true, s')
  run_if true x t s' e = e
  run_if false x t s' e = cc

  done_same : (s t : Sim) → ◌≡◌ {A = Option (Bool × Sim)} (some (true, s)) (some (true, t)) → s ≡ t
  done_same s t e = cc

  -- What the code of a rule that does not write the register commits for it.
  abbrev Commits : Code → Type 0
  Commits c =
      (s s' : Sim)
      → NeverWrites r c
      → run_code registers kinds final c s ≡ some (true, s')
      → (s'.cycle_log.state r ≡ (if is_copied then s.rule_log.state r else s.cycle_log.state r))
        × (s'.rule_log.state r ≡ s.rule_log.state r)

  -- A write of another register comes before.
  past_write :
      (q : ℕ) (f : ℕ → ℕ) (copied old : ℕ) {v w : ℕ}
      → (r == q) ≡ false
      → (v ≡ (if is_copied then update f q copied r else old)) × (w ≡ update f q copied r)
      → (v ≡ (if is_copied then f r else old)) × (w ≡ f r)
  past_write q f copied old other (x, y) = (
    x ∙ ap (λ u. if is_copied then u else old) (if-false (r == q) copied (f r) other),
    y ∙ if-false (r == q) copied (f r) other,
  )

  commits : (c : Code) → Commits c
  unfolding run_code store mark
  commits Code.commit s s' n e = (
    ap (λ (t : Sim). t.cycle_log.state r) (sym (done_same _ _ e))
        ∙ commit_reset-is_copied s.rule_log s.cycle_log,
    ap (λ (t : Sim). t.rule_log.state r) (sym (done_same _ _ e)),
  )
  commits (Code.fail h) s s' n e = cc
  commits (Code.rd0 h q k) s s' n e = elim (Bool-cases (is_value (kinds q))) [
    | inl v ↦ commits (k (s.cycle_log.state q)) s s' (n _) (sym (if-true _ _ _ v) ∙ e)
    | inr nv ↦
        let (a, read, rest) =
          >>=-eq-some (read0 (s.cycle_log.state q) (s.rule_log.rwset q) (s.cycle_log.rwset q)) _
            (sym (if-false _ _ _ nv) ∙ e) in
        commits (k a.value) s s' (n a.value) (run_if a.ok _ _ s' rest)
  ]
  commits (Code.rd1 h q k) s s' n e = elim (Bool-cases (is_value (kinds q))) [
    | inl v ↦ commits (k (s.rule_log.state q)) s s' (n _) (sym (if-true _ _ _ v) ∙ e)
    | inr nv ↦
        let (a, read, rest) =
          >>=-eq-some (read1 (s.rule_log.state q) (s.rule_log.rwset q) (s.cycle_log.rwset q)) _
            (sym (if-false _ _ _ nv) ∙ e) in
        commits (k a.value) (mark s q a) s' (n a.value) (run_if a.ok _ _ s' rest)
  ]
  commits (Code.wr0 h q v k) s s' n e = elim (Bool-cases (is_value (kinds q))) [
    | inl is ↦
        past_write q s.rule_log.state v (s.cycle_log.state r) n.0
          (commits k (write_fast s q v) s' n.1 (sym (if-true _ _ _ is) ∙ e))
    | inr nv ↦
        let (a, wrote, rest) =
          >>=-eq-some (write0 v (s.rule_log.rwset q)) _ (sym (if-false _ _ _ nv) ∙ e) in
        past_write q s.rule_log.state a.value (s.cycle_log.state r) n.0
          (commits k (store s q a) s' n.1 (run_if a.ok _ _ s' rest))
  ]
  commits (Code.wr1 h q v k) s s' n e = elim (Bool-cases (is_value (kinds q))) [
    | inl is ↦
        past_write q s.rule_log.state v (s.cycle_log.state r) n.0
          (commits k (write_fast s q v) s' n.1 (sym (if-true _ _ _ is) ∙ e))
    | inr nv ↦
        let (a, wrote, rest) =
          >>=-eq-some (write1 v (s.rule_log.rwset q)) _ (sym (if-false _ _ _ nv) ∙ e) in
        past_write q s.rule_log.state a.value (s.cycle_log.state r) n.0
          (commits k (store s q a) s' n.1 (run_if a.ok _ _ s' rest))
  ]

  -- After values have been put into the log of the cycle only, if the compiled code of a rule that
  -- writes a register on no path commits, the log of the cycle has the value put there for that
  -- register, unless the commit copies it: the footprint of written values is large, or the
  -- analysis reports a possible write of the register, which the design declares. Then it has the
  -- value that the log of the rule had before, whatever was put there. The log of the rule keeps
  -- its old value either way.
  pub run_code-load_log :
      (c : Code) (values : ℕ → ℕ) (s s' : Sim)
      → NeverWrites r c
      → run_code registers kinds final c (load_log values s) ≡ some (true, s')
      → (s'.cycle_log.state r ≡ (if is_copied then s.rule_log.state r else values r))
        × (s'.rule_log.state r ≡ s.rule_log.state r)
  unfolding load_log
  run_code-load_log c values s s' n e = commits c (load_log values s) s' n e
