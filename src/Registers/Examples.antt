-- ===== src/Registers/Examples.antt =====
-- A design of two rules over registers 0 and 1, run on read-write sets and on the reference log.
use koika.Prelude.{
  ℕ, ◌+◌, Bool, true, false, Option, some, List, [], ◌∷◌, ◌≡◌, refl, if◌then◌else◌, ◌==◌,
}
use koika.Registers.{
  Rwset, reset, may_read0, may_read1, may_write0, may_write1, set_r1, set_w0, set_w1, read0, read1,
  write0, write1,
}
use koika.Registers.Function.{Body, inline_body, call_fn, call_fn-inline_body}
use koika.Registers.Fast.{run_fast, run-run_fast}
use koika.Registers.Dynamic.{run_dol}
use koika.Registers.Dynamic.Equivalent.{run_dol-run}
use koika.Registers.Rule.{Rule, Sim, Generated, run, run_all, fresh, store, mark}
use koika.Registers.Spec.{interp_all, no_events, commit_update, has_read1, has_write0, has_write1}
use koika.Registers.Refine.{Kind}
use koika.Registers.Refine.Cycle.{run_all-commit_update}
use koika.Registers.Atomic.Cycle.{one_at_a_time, committed, run_all-one_at_a_time}

-- `log = Log` and `Log = log`.
abbrev copying : Generated
copying = record {
  reset_rule = λ s. record s { rule_log = s.cycle_log };
  commit_rule = λ s. record s { cycle_log = s.rule_log };
  reset_copies = λ s. refl;
  commit_copies = λ s. refl;
}

-- The first rule stores 5; the second adds what it reads at port 1 to register 1; the third fails,
-- since register 0 has been written.
abbrev rules : List Rule
rules =
    Rule.wr0 0 5 Rule.commit
    ∷ Rule.rd1 0 (λ v. Rule.rd0 1 (λ w. Rule.wr1 1 (v + w) Rule.commit))
    ∷ Rule.rd0 0 (λ v. Rule.wr0 1 v Rule.commit)
    ∷ []

abbrev initial : ℕ → ℕ
initial r = if r == 1 then 30 else 7

abbrev dirty : ℕ → Rwset
dirty r = Rwset.ehr true false true

abbrev all_ehr : ℕ → Kind
all_ehr r = Kind.ehr

cleared : (r : ℕ) → reset (dirty r) ≡ Rwset.ehr false false false
unfolding reset
cleared r = refl

run_all-commit_update_example :
    (s : Sim) × (run_all copying rules (fresh initial dirty)
      ≡ some ((interp_all initial no_events rules).0, s))
    × ((r : ℕ)
        → s.cycle_log.state r ≡ commit_update initial (interp_all initial no_events rules).1 r)
run_all-commit_update_example =
    run_all-commit_update copying all_ehr initial rules dirty
      (unfold has_read1 has_write0 has_write1 in cleared)
      (tt, ((refl, refl, λ v. (refl, λ w. (refl, tt))), ((refl, λ v. tt), tt)))

-- The state in which a cycle ends.
abbrev last : Option (List Bool × Sim) → Sim
last (Option.some (flags, s)) = s
last Option.none = fresh initial dirty

abbrev start : Sim
start = fresh initial dirty

abbrev flags : List Bool
flags = true ∷ true ∷ false ∷ []

outcome : run_all copying rules start ≡ some (flags, last (run_all copying rules start))
unfolding run_all run fresh store mark reset read0 read1 write0 write1 may_write0 set_w0 may_read1
    set_r1 may_read0 may_write1 set_w1
outcome = refl

values :
    ((last (run_all copying rules start)).cycle_log.state 0 ≡ 5)
    × ((last (run_all copying rules start)).cycle_log.state 1 ≡ 35)
unfolding run_all run fresh store mark reset read0 read1 write0 write1 may_write0 set_w0 may_read1
    set_r1 may_read0 may_write1 set_w1
values = (refl, refl)

agreeing : start.rule_log ≡ start.cycle_log
unfolding fresh
agreeing = refl

run_all-one_at_a_time_example :
    (t' : Sim) × (one_at_a_time copying (committed rules flags) start ≡ some t')
    × ((r : ℕ) → t'.cycle_log.state r ≡ (last (run_all copying rules start)).cycle_log.state r)
run_all-one_at_a_time_example =
    run_all-one_at_a_time copying rules start (last (run_all copying rules start)) flags agreeing
      outcome

-- The first rule alone.
abbrev first_rule : Rule
first_rule = Rule.wr0 0 5 Rule.commit

abbrev last_of : Option (Bool × Sim) → Sim
last_of (Option.some (done, s)) = s
last_of Option.none = fresh initial dirty

first_commits : run copying first_rule start ≡ some (true, last_of (run copying first_rule start))
unfolding run fresh store reset write0 may_write0 set_w0
first_commits = refl

run-run_fast_example :
    run_fast first_rule start.cycle_log.state start.rule_log.state
    ≡ (true, (last_of (run copying first_rule start)).cycle_log.state)
run-run_fast_example =
    run-run_fast copying first_rule start (last_of (run copying first_rule start)) first_commits

-- The second rule makes three accesses.
abbrev second_rule : Rule
second_rule = Rule.rd1 0 (λ v. Rule.rd0 1 (λ w. Rule.wr1 1 (v + w) Rule.commit))

run_dol-run_example : run_dol 3 second_rule [] start ≡ run copying second_rule start
run_dol-run_example = run_dol-run copying 3 second_rule start (λ v w. tt) agreeing

-- A function that doubles what it reads from register 0, and a rule that writes its result.
abbrev doubled : Body
doubled = Body.call (Body.rd1 0 Body.fn_return) (λ v. Body.fn_return (v + v))

call_fn-inline_body_example :
    call_fn copying doubled (λ v. Rule.wr1 1 v Rule.commit) start
    ≡ run copying (Rule.rd1 0 (λ v. Rule.wr1 1 (v + v) Rule.commit)) start
unfolding inline_body
call_fn-inline_body_example =
    call_fn-inline_body copying doubled (λ v. Rule.wr1 1 v Rule.commit) start
