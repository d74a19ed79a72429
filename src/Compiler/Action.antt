-- ===== src/Compiler/Action.antt =====
-- The actions of rules and their analysis: `action` of coq/TypedSyntax.v, with numbers for values and
-- with internal calls inlined, and `annotate_action_register_histories` of
-- coq/TypedSyntaxFunctions.v.
use koika.Prelude.{ℕ, ◌==◌, if◌then◌else◌}
use koika.Registers.Rule.{Rule, update}
use koika.Compiler.History.{
  History, empty_history, join_histories, update_read0, update_read1, update_write0, update_write1,
  append_histories,
}

-- `unop` is an operator or an external function.
pub data Action : Type 0 where
  fail : Action
  var : ℕ → Action
  const : ℕ → Action
  assign : ℕ → Action → Action
  seq : Action → Action → Action
  bind : ℕ → Action → Action → Action
  cond : Action → Action → Action → Action
  read0 read1 : ℕ → Action
  write0 write1 : ℕ → Action → Action
  unop : (ℕ → ℕ) → Action → Action
  binop : (ℕ → ℕ → ℕ) → Action → Action → Action

-- The values of the variables.
abbrev pub Env : Type 0
Env = ℕ → ℕ

-- What an action does before the rest `k` of a rule, which gets its value: its meaning.
unfoldable pub rule_of : Action → Env → (ℕ → Env → Rule) → Rule
rule_of Action.fail env k = Rule.fail
rule_of (Action.var x) env k = k (env x) env
rule_of (Action.const v) env k = k v env
rule_of (Action.assign x a) env k = rule_of a env (λ v env'. k 0 (update env' x v))
rule_of (Action.seq a b) env k = rule_of a env (λ v env'. rule_of b env' k)
rule_of (Action.bind x a b) env k =
    rule_of a env (λ v env'. rule_of b (update env' x v) (λ w env''. k w (update env'' x (env' x))))
rule_of (Action.cond c a b) env k = rule_of c env (λ v env'.
    let yes_branch = rule_of a env' k in
    let no_branch = rule_of b env' k in if v == 0 then no_branch else yes_branch)
rule_of (Action.read0 r) env k = Rule.rd0 r (λ v. k v env)
rule_of (Action.read1 r) env k = Rule.rd1 r (λ v. k v env)
rule_of (Action.write0 r a) env k = rule_of a env (λ v env'. Rule.wr0 r v (k 0 env'))
rule_of (Action.write1 r a) env k = rule_of a env (λ v env'. Rule.wr1 r v (k 0 env'))
rule_of (Action.unop f a) env k = rule_of a env (λ v env'. k (f v) env')
rule_of (Action.binop f a b) env k =
    rule_of a env (λ v env'. rule_of b env' (λ w env''. k (f v w) env''))

abbrev pub meaning : Action → Rule
meaning a = rule_of a (λ x. 0) (λ v env. Rule.commit)

-- `reg_history_map`
abbrev pub Histories : Type 0
Histories = ℕ → History

abbrev pub empty_history_map : Histories
empty_history_map r = empty_history

abbrev pub update_map : Histories → ℕ → (History → History) → Histories
update_map h r f = update h r (f (h r))

abbrev pub join_history_maps : Histories → Histories → Histories
join_history_maps h h' r = join_histories (h r) (h' r)

-- The histories after an action, from those before it.
unfoldable pub annotate : Histories → Action → Histories
annotate h Action.fail = h
annotate h (Action.var x) = h
annotate h (Action.const v) = h
annotate h (Action.assign x a) = annotate h a
annotate h (Action.seq a b) = annotate (annotate h a) b
annotate h (Action.bind x a b) = annotate (annotate h a) b
annotate h (Action.cond c a b) =
    join_history_maps (annotate (annotate h c) a) (annotate (annotate h c) b)
annotate h (Action.read0 r) = update_map h r update_read0
annotate h (Action.read1 r) = update_map h r update_read1
annotate h (Action.write0 r a) = update_map (annotate h a) r update_write0
annotate h (Action.write1 r a) = update_map (annotate h a) r update_write1
annotate h (Action.unop f a) = annotate h a
annotate h (Action.binop f a b) = annotate (annotate h a) b

abbrev pub rule_histories : Action → Histories
rule_histories a = annotate empty_history_map a

abbrev pub append_history_maps : Histories → Histories → Histories
append_history_maps L l r = append_histories (L r) (l r)
