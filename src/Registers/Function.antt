-- ===== src/Registers/Function.antt =====
-- Functions that rules call: the macros FN_RETURN and CALL_FN of
-- ocaml/backends/resources/cuttlesim.hpp. The body of a function is compiled like that of a rule: it
-- reads, writes, calls and fails on the logs of the rule that calls it.
use koika.Prelude.{
  ℕ, Bool, true, false, Option, none, some, ◌≡◌, refl, sym, ap, ◌∙◌, if◌then◌else◌, ◌>>=◌,
}
use koika.Registers.{Access, read0, read1, write0, write1}
use koika.Registers.Rule.{Rule, Sim, Generated, store, mark, run}

pub data Body : Type 0 where
  fn_return : ℕ → Body
  fail : Body
  rd0 rd1 : ℕ → (ℕ → Body) → Body
  wr0 wr1 : ℕ → ℕ → Body → Body
  call : Body → (ℕ → Body) → Body

-- The body in the place of a call, before what the rule does with the result.
unfoldable pub inline_body : Body → (ℕ → Rule) → Rule
inline_body (Body.fn_return v) k = k v
inline_body Body.fail k = Rule.fail
inline_body (Body.rd0 r f) k = Rule.rd0 r (λ v. inline_body (f v) k)
inline_body (Body.rd1 r f) k = Rule.rd1 r (λ v. inline_body (f v) k)
inline_body (Body.wr0 r v b) k = Rule.wr0 r v (inline_body b k)
inline_body (Body.wr1 r v b) k = Rule.wr1 r v (inline_body b k)
inline_body (Body.call b f) k = inline_body b (λ v. inline_body (f v) k)

module _ (g : Generated) where
  -- A function that fails has reset the log of the rule and returns false: `none`.
  unfoldable pub run_fn : Body → Sim → Option (Option ℕ × Sim)
  run_fn (Body.fn_return v) s = some (some v, s)
  run_fn Body.fail s = some (none, g.reset_rule s)
  run_fn (Body.rd0 r f) s = do
    a ← read0 (s.cycle_log.state r) (s.rule_log.rwset r) (s.cycle_log.rwset r)
    if a.ok then run_fn (f a.value) s else some (none, g.reset_rule s)
  run_fn (Body.rd1 r f) s = do
    a ← read1 (s.rule_log.state r) (s.rule_log.rwset r) (s.cycle_log.rwset r)
    if a.ok then run_fn (f a.value) (mark s r a) else some (none, g.reset_rule (mark s r a))
  run_fn (Body.wr0 r v b) s = do
    a ← write0 v (s.rule_log.rwset r)
    if a.ok then run_fn b (store s r a) else some (none, g.reset_rule (store s r a))
  run_fn (Body.wr1 r v b) s = do
    a ← write1 v (s.rule_log.rwset r)
    if a.ok then run_fn b (store s r a) else some (none, g.reset_rule (store s r a))
  run_fn (Body.call b f) s = do
    (result, s₁) ← run_fn b s
    elim result [ none ↦ some (none, g.reset_rule s₁) | some v ↦ run_fn (f v) s₁ ]

  -- `CALL_FN`, and what the rule does with the result; a call that returns false fails the rule.
  abbrev pub after_call : (ℕ → Rule) → Option ℕ → Sim → Option (Bool × Sim)
  after_call k none s = some (false, g.reset_rule s)
  after_call k (some v) s = run g (k v) s

  unfoldable pub call_fn : Body → (ℕ → Rule) → Sim → Option (Bool × Sim)
  call_fn body k s = run_fn body s >>= λ (v, s'). after_call k v s'

  -- To reset a log twice is to reset it once.
  reset_rule-twice : (s : Sim) → g.reset_rule (g.reset_rule s) ≡ g.reset_rule s
  reset_rule-twice s =
      ap g.reset_rule (g.reset_copies s) ∙ g.reset_copies _ ∙ sym (g.reset_copies s)

  after_failure :
      (k : ℕ → Rule) (s : Sim) → after_call k none (g.reset_rule s) ≡ some (false, g.reset_rule s)
  after_failure k s = ap (λ t. some (false, t)) (reset_rule-twice s)

  after_access :
      (k : ℕ → Rule) (access : Option Access) (f : Access → Option (Option ℕ × Sim))
      (h : Access → Option (Bool × Sim)) (u : Access → Sim)
      → ((a : Access) → (f a >>= λ (v, s'). after_call k v s') ≡ h a)
      → ((access >>= λ a. if a.ok then f a else some (none, g.reset_rule (u a))) >>= λ (v, s').
          after_call k v s')
        ≡ (access >>= λ a. if a.ok then h a else some (false, g.reset_rule (u a)))
  after_access k none f h u e = refl
  after_access k (some a) f h u e = tested a.ok
    where
      tested :
          (ok : Bool)
          → ((if ok then f a else some (none, g.reset_rule (u a))) >>= λ (v, s'). after_call k v s')
            ≡ (if ok then h a else some (false, g.reset_rule (u a)))
      tested true = e a
      tested false = after_failure k (u a)

  -- A call in the body of a function, by what the rule that has called the function does.
  nested_call :
      (k : ℕ → Rule) (f : ℕ → Body) (h : ℕ → Sim → Option (Bool × Sim))
      (o : Option (Option ℕ × Sim))
      → ((v : ℕ) (s : Sim) → (run_fn (f v) s >>= λ (w, s'). after_call k w s') ≡ h v s)
      → ((o >>= λ (result, s₁). elim result [
        | none ↦ some (none, g.reset_rule s₁)
        | some v ↦ run_fn (f v) s₁
      ])
          >>= λ (w, s'). after_call k w s')
        ≡ (o >>= λ (result, s₁). elim result [
          | none ↦ some (false, g.reset_rule s₁)
          | some v ↦ h v s₁
        ])
  nested_call k f h none e = refl
  nested_call k f h (some (none, s₁)) e = after_failure k s₁
  nested_call k f h (some (some v, s₁)) e = e v s₁

  by_result :
      (k : ℕ → Rule) (o : Option (Option ℕ × Sim))
      → (o >>= λ (result, s₁). elim result [
        | none ↦ some (false, g.reset_rule s₁)
        | some v ↦ run g (k v) s₁
      ])
        ≡ (o >>= λ (v, s'). after_call k v s')
  by_result k none = refl
  by_result k (some (none, s₁)) = refl
  by_result k (some (some v, s₁)) = refl

  -- A rule that calls a function does, in whatever state, what the rule does that has the function's
  -- body in the place of the call: it commits or fails alike, and leaves the same logs.
  pub call_fn-inline_body :
      (body : Body) (k : ℕ → Rule) (s : Sim) → call_fn body k s ≡ run g (inline_body body k) s
  unfolding call_fn run_fn run inline_body
  call_fn-inline_body (Body.fn_return v) k s = refl
  call_fn-inline_body Body.fail k s = after_failure k s
  call_fn-inline_body (Body.rd0 r f) k s =
      after_access k (read0 (s.cycle_log.state r) (s.rule_log.rwset r) (s.cycle_log.rwset r)) _ _ _
        (λ a. call_fn-inline_body (f a.value) k s)
  call_fn-inline_body (Body.rd1 r f) k s =
      after_access k (read1 (s.rule_log.state r) (s.rule_log.rwset r) (s.cycle_log.rwset r)) _ _ _
        (λ a. call_fn-inline_body (f a.value) k (mark s r a))
  call_fn-inline_body (Body.wr0 r v b) k s =
      after_access k (write0 v (s.rule_log.rwset r)) _ _ _
        (λ a. call_fn-inline_body b k (store s r a))
  call_fn-inline_body (Body.wr1 r v b) k s =
      after_access k (write1 v (s.rule_log.rwset r)) _ _ _
        (λ a. call_fn-inline_body b k (store s r a))
  call_fn-inline_body (Body.call b f) k s =
      nested_call k f (λ v s₁. run g (inline_body (f v) k) s₁) (run_fn b s)
        (λ v s₁. call_fn-inline_body (f v) k s₁)
      ∙ by_result (λ v. inline_body (f v) k) (run_fn b s)
      ∙ call_fn-inline_body b (λ v. inline_body (f v) k) s
