-- ===== src/Compiler/Code.antt =====
-- The C++ that ocaml/backends/cpp.ml prints for a rule, and what it does: `p_action`, `p_reset`,
-- `p_commit` and `p_rule_body`, with the footprints, the macros of
-- ocaml/backends/resources/cuttlesim.hpp that they choose, and `may_fail_without_revert` of
-- coq/TypedSyntaxFunctions.v.
use koika.Prelude.{
  ℕ, ◌==◌, ◌*◌, Bool, true, false, not, ◌&&◌, ◌||◌, Option, some, List, [], ◌∷◌, length, ltb,
  if◌then◌else◌, ◌>>=◌,
}
use koika.Registers.{Rwset, read0, read1, write0, write1}
use koika.Registers.Rule.{Log, Sim, update, store, mark}
use koika.Compiler.History.{History, may, must, RegisterKind}
use koika.Compiler.Action.{Action, Env, Histories, empty_history_map, annotate}

-- A rule whose accesses and failures carry the histories of their places (`HistoryAnnot`).
pub data Code : Type 0 where
  commit : Code
  fail : Histories → Code
  rd0 rd1 : Histories → ℕ → (ℕ → Code) → Code
  wr0 wr1 : Histories → ℕ → ℕ → Code → Code

-- An operand is a value here. The compiler prints it as an expression, which comes to the same for
-- actions that are `ordered`.
unfoldable pub code_of : Action → Histories → Env → (ℕ → Env → Code) → Code
code_of Action.fail h env k = Code.fail h
code_of (Action.var x) h env k = k (env x) env
code_of (Action.const v) h env k = k v env
code_of (Action.assign x a) h env k = code_of a h env (λ v env'. k 0 (update env' x v))
code_of (Action.seq a b) h env k = code_of a h env (λ v env'. code_of b (annotate h a) env' k)
code_of (Action.bind x a b) h env k = code_of a h env (λ v env'.
    code_of b (annotate h a) (update env' x v) (λ w env''. k w (update env'' x (env' x))))
code_of (Action.cond c a b) h env k = code_of c h env (λ v env'.
    let yes_branch = code_of a (annotate h c) env' k in
    let no_branch = code_of b (annotate h c) env' k in if v == 0 then no_branch else yes_branch)
code_of (Action.read0 r) h env k = Code.rd0 h r (λ v. k v env)
code_of (Action.read1 r) h env k = Code.rd1 h r (λ v. k v env)
code_of (Action.write0 r a) h env k =
    code_of a h env (λ v env'. Code.wr0 (annotate h a) r v (k 0 env'))
code_of (Action.write1 r a) h env k =
    code_of a h env (λ v env'. Code.wr1 (annotate h a) r v (k 0 env'))
code_of (Action.unop f a) h env k = code_of a h env (λ v env'. k (f v) env')
code_of (Action.binop f a b) h env k =
    code_of a h env (λ v env'. code_of b (annotate h a) env' (λ w env''. k (f v w) env''))

-- The body of a rule, and COMMIT after it.
abbrev pub rule_code : Action → Code
rule_code a = code_of a empty_history_map (λ x. 0) (λ v env. Code.commit)

abbrev pub is_value : RegisterKind → Bool
is_value RegisterKind.value = true
is_value RegisterKind.wire = false
is_value RegisterKind.register = false
is_value RegisterKind.ehr = false

-- The member of `rwset_t`; a register of the kind `value` has none, and what stands here in its place
-- is never used.
abbrev pub rwset_of_kind : RegisterKind → Rwset
rwset_of_kind RegisterKind.value = Rwset.ehr false false false
rwset_of_kind RegisterKind.wire = Rwset.wire false false
rwset_of_kind RegisterKind.register = Rwset.reg false
rwset_of_kind RegisterKind.ehr = Rwset.ehr false false false

unfoldable pub filter_registers : (ℕ → Bool) → List ℕ → List ℕ
filter_registers test [] = []
filter_registers test (r ∷ rs) =
    let rest = filter_registers test rs in if test r then r ∷ rest else rest

-- `ok` in `may_fail_without_revert`
abbrev pub may_stay : History → Bool
may_stay h =
    (not (may h.hr1) && not (may h.hw0) && not (may h.hw1))
    || (not (may h.hw0) && not (may h.hw1) && must h.hcf)

unfoldable pub may_fail_without_revert : List ℕ → Histories → Bool
may_fail_without_revert [] h = true
may_fail_without_revert (r ∷ rs) h = may_stay (h r) && may_fail_without_revert rs h

-- `dst.field = src.field`, one register after the other.
unfoldable pub copy_registers {ℓ} : {A : Type ℓ} → List ℕ → (ℕ → A) → (ℕ → A) → ℕ → A
copy_registers [] src dst = dst
copy_registers (r ∷ rs) src dst = copy_registers rs src (update dst r (src r))

-- WRITE0_FAST and WRITE1_FAST.
abbrev pub write_fast : Sim → ℕ → ℕ → Sim
write_fast s r v = record s { rule_log = record s.rule_log { state = update s.rule_log.state r v } }

-- The registers of the design, their kinds, and the histories of a rule.
module _ (registers : List ℕ) (kinds : ℕ → RegisterKind) (histories : Histories) where
  abbrev pub needs_rwset : ℕ → Bool
  needs_rwset r =
      not (is_value (kinds r))
      && (may (histories r).hr1 || may (histories r).hw0 || may (histories r).hw1)

  abbrev pub needs_rwdata : ℕ → Bool
  needs_rwdata r = may (histories r).hw0 || may (histories r).hw1

  abbrev pub rwset_footprint : List ℕ
  rwset_footprint = filter_registers needs_rwset registers

  abbrev pub rwdata_footprint : List ℕ
  rwdata_footprint = filter_registers needs_rwdata registers

  abbrev pub large_footprint : List ℕ → Bool
  large_footprint footprint = ltb (4 * length registers) (5 * length footprint)

  abbrev pub copy {ℓ} : {A : Type ℓ} → List ℕ → (ℕ → A) → (ℕ → A) → ℕ → A
  copy footprint src dst =
      if large_footprint footprint then src else copy_registers footprint src dst

  unfoldable pub commit_reset : Log → Log → Log
  commit_reset src dst =
      if large_footprint rwdata_footprint && large_footprint rwset_footprint then src else record {
        state = copy rwdata_footprint src.state dst.state;
        rwset = copy rwset_footprint src.rwset dst.rwset;
      }

  abbrev pub reset_rule : Sim → Sim
  reset_rule s = record s { rule_log = commit_reset s.cycle_log s.rule_log }

  abbrev pub commit_rule : Sim → Sim
  commit_rule s = record s { cycle_log = commit_reset s.rule_log s.cycle_log }

  unfoldable pub run_code : Code → Sim → Option (Bool × Sim)
  run_code Code.commit s = some (true, commit_rule s)
  run_code (Code.fail h) s =
      some (false, if may_fail_without_revert registers h then s else reset_rule s)
  run_code (Code.rd0 h r k) s =
      let fast = run_code (k (s.cycle_log.state r)) s in
      let slow : Option (Bool × Sim) = do
        a ← read0 (s.cycle_log.state r) (s.rule_log.rwset r) (s.cycle_log.rwset r)
        if a.ok then run_code (k a.value) s else some (false, reset_rule s)
      in if is_value (kinds r) then fast else slow
  run_code (Code.rd1 h r k) s =
      let fast = run_code (k (s.rule_log.state r)) s in
      let slow : Option (Bool × Sim) = do
        a ← read1 (s.rule_log.state r) (s.rule_log.rwset r) (s.cycle_log.rwset r)
        if a.ok then run_code (k a.value) (mark s r a) else some (false, reset_rule (mark s r a))
      in if is_value (kinds r) then fast else slow
  run_code (Code.wr0 h r v k) s =
      let fast = run_code k (write_fast s r v) in
      let slow : Option (Bool × Sim) = do
        a ← write0 v (s.rule_log.rwset r)
        if a.ok then run_code k (store s r a) else some (false, reset_rule (store s r a))
      in if is_value (kinds r) then fast else slow
  run_code (Code.wr1 h r v k) s =
      let fast = run_code k (write_fast s r v) in
      let slow : Option (Bool × Sim) = do
        a ← write1 v (s.rule_log.rwset r)
        if a.ok then run_code k (store s r a) else some (false, reset_rule (store s r a))
      in if is_value (kinds r) then fast else slow
