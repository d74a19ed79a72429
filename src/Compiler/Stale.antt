-- ===== src/Compiler/Stale.antt =====
-- A failure that resets nothing, after a read at port 1: FAIL_FAST where `may_fail_without_revert` of
-- coq/TypedSyntaxFunctions.v allows it.
pub mod Cycle
use koika.Prelude.{
  ℕ, ◌==◌, Bool, true, false, not, ◌&&◌, Option, some, List, [], ◌∷◌, ◌≡◌, refl, sym, ap, ◌∙◌, ◌⊎◌,
  inl, inr, cases_eq, arith,
}
use koika.Registers.Rule.{Rule, Sim, update, store, mark}
use koika.Compiler.History.{
  RegisterKind, History, may, must, empty_history, append_histories, kind_by, compute_register_kind,
  update_read1, update_write0,
}
use koika.Compiler.Access.{update_same, updated-Below}
use koika.Compiler.Action.{
  Action, Env, Histories, annotate, empty_history_map, update_map, rule_of, rule_histories,
}
use koika.Compiler.Annotated.{both}
use koika.Compiler.Below.{Below-refl, append_l-Below, append_r-Below, annotate-Below}
use koika.Compiler.Clean.{clean_write0}
use koika.Compiler.Code.{Code, code_of, may_stay, may_fail_without_revert, run_code}
use koika.Compiler.Schedule.{Scheduler, schedule_histories, register_kinds}

-- An expression: variables, constants and operators.
unfoldable pub is_expr : Action → Bool
is_expr Action.fail = false
is_expr (Action.var x) = true
is_expr (Action.const v) = true
is_expr (Action.assign x a) = false
is_expr (Action.seq a b) = false
is_expr (Action.bind x a b) = false
is_expr (Action.cond c a b) = false
is_expr (Action.read0 r) = false
is_expr (Action.read1 r) = false
is_expr (Action.write0 r a) = false
is_expr (Action.write1 r a) = false
is_expr (Action.unop f a) = is_expr a
is_expr (Action.binop f a b) = is_expr a && is_expr b

-- The value of an expression.
unfoldable pub value_of : Action → Env → ℕ
value_of Action.fail env = 0
value_of (Action.var x) env = env x
value_of (Action.const v) env = v
value_of (Action.assign x a) env = 0
value_of (Action.seq a b) env = 0
value_of (Action.bind x a b) env = 0
value_of (Action.cond c a b) env = 0
value_of (Action.read0 r) env = 0
value_of (Action.read1 r) env = 0
value_of (Action.write0 r a) env = 0
value_of (Action.write1 r a) env = 0
value_of (Action.unop f a) env = f (value_of a env)
value_of (Action.binop f a b) env = f (value_of a env) (value_of b env)

pub annotate-is_expr : (a : Action) (h : Histories) → is_expr a ≡ true → annotate h a ≡ h
unfolding annotate is_expr
annotate-is_expr Action.fail h e = cc
annotate-is_expr (Action.var x) h e = refl
annotate-is_expr (Action.const v) h e = refl
annotate-is_expr (Action.assign x a) h e = cc
annotate-is_expr (Action.seq a b) h e = cc
annotate-is_expr (Action.bind x a b) h e = cc
annotate-is_expr (Action.cond c a b) h e = cc
annotate-is_expr (Action.read0 r) h e = cc
annotate-is_expr (Action.read1 r) h e = cc
annotate-is_expr (Action.write0 r a) h e = cc
annotate-is_expr (Action.write1 r a) h e = cc
annotate-is_expr (Action.unop f a) h e = annotate-is_expr a h e
annotate-is_expr (Action.binop f a b) h e =
    let (ea, eb) = both (is_expr a) _ e in rw (annotate-is_expr a h ea) (annotate-is_expr b h eb)

pub code_of-is_expr :
    (a : Action) (h : Histories) (env : Env) (k : ℕ → Env → Code)
    → is_expr a ≡ true
    → code_of a h env k ≡ k (value_of a env) env
unfolding code_of is_expr value_of
code_of-is_expr Action.fail h env k e = cc
code_of-is_expr (Action.var x) h env k e = refl
code_of-is_expr (Action.const v) h env k e = refl
code_of-is_expr (Action.assign x a) h env k e = cc
code_of-is_expr (Action.seq a b) h env k e = cc
code_of-is_expr (Action.bind x a b) h env k e = cc
code_of-is_expr (Action.cond c a b) h env k e = cc
code_of-is_expr (Action.read0 r) h env k e = cc
code_of-is_expr (Action.read1 r) h env k e = cc
code_of-is_expr (Action.write0 r a) h env k e = cc
code_of-is_expr (Action.write1 r a) h env k e = cc
code_of-is_expr (Action.unop f a) h env k e = code_of-is_expr a h env (λ v env'. k (f v) env') e
code_of-is_expr (Action.binop f a b) h env k e =
    let (ea, eb) = both (is_expr a) _ e in
    code_of-is_expr a h env (λ v env'. code_of b (annotate h a) env' (λ w env''. k (f v w) env''))
      ea
    ∙ code_of-is_expr b (annotate h a) env (λ w env''. k (f (value_of a env) w) env'') eb

pub rule_of-is_expr :
    (a : Action) (env : Env) (k : ℕ → Env → Rule)
    → is_expr a ≡ true
    → rule_of a env k ≡ k (value_of a env) env
unfolding rule_of is_expr value_of
rule_of-is_expr Action.fail env k e = cc
rule_of-is_expr (Action.var x) env k e = refl
rule_of-is_expr (Action.const v) env k e = refl
rule_of-is_expr (Action.assign x a) env k e = cc
rule_of-is_expr (Action.seq a b) env k e = cc
rule_of-is_expr (Action.bind x a b) env k e = cc
rule_of-is_expr (Action.cond c a b) env k e = cc
rule_of-is_expr (Action.read0 r) env k e = cc
rule_of-is_expr (Action.read1 r) env k e = cc
rule_of-is_expr (Action.write0 r a) env k e = cc
rule_of-is_expr (Action.write1 r a) env k e = cc
rule_of-is_expr (Action.unop f a) env k e = rule_of-is_expr a env (λ v env'. k (f v) env') e
rule_of-is_expr (Action.binop f a b) env k e =
    let (ea, eb) = both (is_expr a) _ e in
    rule_of-is_expr a env (λ v env'. rule_of b env' (λ w env''. k (f v w) env'')) ea
    ∙ rule_of-is_expr b env (λ w env''. k (f (value_of a env) w) env'') eb

-- A rule that reads register `q` at port 1 and fails if the test `c` holds of what it has read, before
-- the rest of it, `body`; and then a rule that writes the register at port 0.
abbrev pub guarded : ℕ → ℕ → Action → Action → Action
guarded q x c body = Action.bind x (Action.read1 q) (Action.cond c Action.fail body)

abbrev pub read_then_write : ℕ → ℕ → Action → Action → Action → Scheduler
read_then_write q x c body e =
    Scheduler.cons (guarded q x c body) (Scheduler.cons (Action.write0 q e) Scheduler.done)

-- A register that may conflict and may be read at port 1 has a set with the mark of the read.
kind_by-marked :
    (cf r0 r1 w1 : Bool)
    → cf ≡ false
    → r1 ≡ true
    → (kind_by cf r0 r1 w1 ≡ RegisterKind.wire) ⊎ (kind_by cf r0 r1 w1 ≡ RegisterKind.ehr)
kind_by-marked true r0 r1 w1 e f = cc
kind_by-marked false r0 false w1 e f = cc
kind_by-marked false false true false e f = inl refl
kind_by-marked false true true false e f = inr refl
kind_by-marked false false true true e f = inr refl
kind_by-marked false true true true e f = inr refl

not_must : (b : Bool) → (b ≡ true → true ≡ false) → b ≡ false
not_must true f = f refl
not_must false f = refl

marked-kind :
    (F G : History)
    → may F.hr1 ≡ true
    → may G.hw0 ≡ true
    → (compute_register_kind (append_histories (append_histories empty_history F) G)
        ≡ RegisterKind.wire)
      ⊎ (compute_register_kind (append_histories (append_histories empty_history F) G)
          ≡ RegisterKind.ehr)
marked-kind F G f g =
    let H = append_histories empty_history F in
    let marked = (append_r-Below empty_history F).r1 f in
    kind_by-marked _ _ _ _
      (not_must (must (append_histories H G).hcf) (λ e. sym marked ∙ (clean_write0 H G e g).0))
      ((append_l-Below H G).r1 marked)

module _ (q x : ℕ) (c body e : Action) (ec : is_expr c ≡ true) where
  guarded-read1 : may (rule_histories (guarded q x c body) q).hr1 ≡ true
  unfolding annotate
  guarded-read1 =
      (updated-Below empty_history_map q update_read1 (
          annotate-Below (Action.cond c Action.fail body)
            (update_map empty_history_map q update_read1))).r1
        refl

  -- The register has a set, of one of the two kinds that mark the read.
  pub read_then_write-kind :
      (register_kinds (read_then_write q x c body e) q ≡ RegisterKind.wire)
      ⊎ (register_kinds (read_then_write q x c body e) q ≡ RegisterKind.ehr)
  unfolding schedule_histories annotate
  read_then_write-kind =
      marked-kind (rule_histories (guarded q x c body) q) (rule_histories (Action.write0 q e) q)
        guarded-read1
        ((updated-Below (annotate empty_history_map e) q update_write0
            (λ r. Below-refl (update_map (annotate empty_history_map e) q update_write0 r))).w0
          refl)
