-- ===== src/Registers/Rule.antt =====
-- Rules as the macros READ0, READ1, WRITE0, WRITE1, FAIL and COMMIT of
-- ocaml/backends/resources/cuttlesim.hpp run them on the logs of a model.
use koika.Prelude.{
  ℕ, ◌==◌, Bool, true, false, Option, some, List, [], ◌∷◌, ◌≡◌, if◌then◌else◌, ◌>>=◌,
}
use koika.Registers.{Rwset, Access, reset, read0, read1, write0, write1}

-- The body of a rule: what it does next may depend on what it has read.
pub data Rule : Type 0 where
  commit fail : Rule
  rd0 rd1 : ℕ → (ℕ → Rule) → Rule
  wr0 wr1 : ℕ → ℕ → Rule → Rule

-- `log_t`: the values of the registers and their read-write sets.
pub record Log : Type 0 where
  pub state : ℕ → ℕ
  pub rwset : ℕ → Rwset

-- The cycle's log `Log` and the rule's log `log`.
pub record Sim : Type 0 where
  pub cycle_log : Log
  pub rule_log : Log

abbrev pub update {ℓ} : {A : Type ℓ} → (ℕ → A) → ℕ → A → ℕ → A
update f r a j = if j == r then a else f j

-- An access stores its value and its set into the rule's log.
unfoldable pub store : Sim → ℕ → Access → Sim
store s r a = record s {
  rule_log = record {
    state = update s.rule_log.state r a.value;
    rwset = update s.rule_log.rwset r a.rwset;
  };
}

-- A read at port 1 changes the set only.
unfoldable pub mark : Sim → ℕ → Access → Sim
mark s r a = record s { rule_log = record s.rule_log { rwset = update s.rule_log.rwset r a.rwset } }

-- The functions `reset_RULE` and `commit_RULE` that the compiler generates for each rule. They copy
-- every register that the rule can touch from one log to the other. Here they are given as copies of
-- the whole log, which comes to the same where the logs agree on the other registers;
-- the functions with their footprints are those of Compiler/Code.
pub record Generated : Type 0 where
  pub reset_rule : Sim → Sim
  pub commit_rule : Sim → Sim
  pub reset_copies : (s : Sim) → reset_rule s ≡ record s { rule_log = s.cycle_log }
  pub commit_copies : (s : Sim) → commit_rule s ≡ record s { cycle_log = s.rule_log }

module _ (g : Generated) where
  -- The result says whether the rule has committed.
  unfoldable pub run : Rule → Sim → Option (Bool × Sim)
  run commit s = some (true, g.commit_rule s)
  run fail s = some (false, g.reset_rule s)
  run (rd0 r k) s = do
    a ← read0 (s.cycle_log.state r) (s.rule_log.rwset r) (s.cycle_log.rwset r)
    if a.ok then run (k a.value) s else some (false, g.reset_rule s)
  run (rd1 r k) s = do
    a ← read1 (s.rule_log.state r) (s.rule_log.rwset r) (s.cycle_log.rwset r)
    if a.ok then run (k a.value) (mark s r a) else some (false, g.reset_rule (mark s r a))
  run (wr0 r v k) s = do
    a ← write0 v (s.rule_log.rwset r)
    if a.ok then run k (store s r a) else some (false, g.reset_rule (store s r a))
  run (wr1 r v k) s = do
    a ← write1 v (s.rule_log.rwset r)
    if a.ok then run k (store s r a) else some (false, g.reset_rule (store s r a))

  -- The rules of a schedule, in order; the result lists which ones have committed.
  unfoldable pub run_all : List Rule → Sim → Option (List Bool × Sim)
  run_all [] s = some ([], s)
  run_all (rule ∷ rules) s = do
    (done, s₁) ← run rule s
    (rest, s₂) ← run_all rules s₁
    some (done ∷ rest, s₂)

-- The start of a cycle: `reset()` on every read-write set, both logs equal.
unfoldable pub fresh : (ℕ → ℕ) → (ℕ → Rwset) → Sim
fresh state rwset =
    let log : Log = record { state = state; rwset = λ r. reset (rwset r) } in
    record { cycle_log = log; rule_log = log }
