-- ===== src/Registers/Fast.antt =====
-- The macros READ0_FAST, READ1_FAST, WRITE0_FAST, WRITE1_FAST and FAIL_FAST of
-- ocaml/backends/resources/cuttlesim.hpp, which the compiler uses where no check can fail: they use the
-- values of the logs and leave the read-write sets alone.
use koika.Prelude.{
  ℕ, Bool, true, false, Option, none, some, ◌≡◌, sym, ap, ◌∙◌, if◌then◌else◌, ◌>>=◌, >>=-eq-some,
  some_inj,
}
use koika.Registers.{
  may_read0, may_read1, may_write0, may_write1, set_r1, set_w0, set_w1, Rwset, Access, read0, read1,
  write0, write1,
}
use koika.Registers.Rule.{Rule, Log, Sim, Generated, update, run, store, mark}

-- `read_fast` and `write_fast`: the value that is left in the target.
abbrev read_fast : ℕ → ℕ
read_fast rL = rL

abbrev write_fast : ℕ → ℕ
write_fast val = val

-- A rule on `Log.state` and `log.state`; the result says whether it has committed, and gives the
-- values that COMMIT or FAIL_FAST leaves in the rule's log.
unfoldable pub run_fast : Rule → (ℕ → ℕ) → (ℕ → ℕ) → Bool × (ℕ → ℕ)
run_fast Rule.commit cycle_state rule_state = (true, rule_state)
run_fast Rule.fail cycle_state rule_state = (false, rule_state)
run_fast (Rule.rd0 r k) cycle_state rule_state =
    run_fast (k (read_fast (cycle_state r))) cycle_state rule_state
run_fast (Rule.rd1 r k) cycle_state rule_state =
    run_fast (k (read_fast (rule_state r))) cycle_state rule_state
run_fast (Rule.wr0 r v k) cycle_state rule_state =
    run_fast k cycle_state (update rule_state r (write_fast v))
run_fast (Rule.wr1 r v k) cycle_state rule_state =
    run_fast k cycle_state (update rule_state r (write_fast v))

-- An access that does not fail to compile has the value that it is given.
access-value :
    (v : ℕ) (may : Option Bool) (set : Option Rwset) (a : Access)
    → (may >>= λ ok. set >>= λ rwset. some (record { ok = ok; value = v; rwset = rwset })) ≡ some a
    → v ≡ a.value
access-value v none set a e = cc
access-value v (some ok) none a e = cc
access-value v (some ok) (some rwset) a e = ap (λ (x : Access). x.value) (some_inj e)

read0-value : (v : ℕ) (l L : Rwset) (a : Access) → read0 v l L ≡ some a → v ≡ a.value
unfolding read0
read0-value v l L a e = access-value v (may_read0 L) (some l) a e

read1-value : (v : ℕ) (l L : Rwset) (a : Access) → read1 v l L ≡ some a → v ≡ a.value
unfolding read1
read1-value v l L a e = access-value v (may_read1 L) (set_r1 l) a e

write0-value : (v : ℕ) (l : Rwset) (a : Access) → write0 v l ≡ some a → v ≡ a.value
unfolding write0
write0-value v l a e = access-value v (may_write0 l) (set_w0 l) a e

write1-value : (v : ℕ) (l : Rwset) (a : Access) → write1 v l ≡ some a → v ≡ a.value
unfolding write1
write1-value v l a e = access-value v (may_write1 l) (set_w1 l) a e

-- A rule that commits has passed the check of its access.
passed :
    (ok : Bool) (rest : Option (Bool × Sim)) (aborted s' : Sim)
    → (if ok then rest else some (false, aborted)) ≡ some (true, s')
    → rest ≡ some (true, s')
passed true rest aborted s' e = e
passed false rest aborted s' e = cc

module _ (g : Generated) where
  -- Where the commit of a rule copies its whole log: a rule that commits, in whatever state, does
  -- without its checks the same: it commits, and its values are those that the log of the cycle
  -- holds afterwards.
  pub run-run_fast :
      (rule : Rule) (s s' : Sim)
      → run g rule s ≡ some (true, s')
      → run_fast rule s.cycle_log.state s.rule_log.state ≡ (true, s'.cycle_log.state)
  unfolding run run_fast store mark
  run-run_fast Rule.commit s s' e =
      ap (λ (l : Log). (true, l.state))
        (sym (ap (λ (x : Sim). x.cycle_log) (g.commit_copies s))
          ∙ ap (λ (x : Bool × Sim). x.1.cycle_log) (some_inj e))
  run-run_fast Rule.fail s s' e = cc
  run-run_fast (Rule.rd0 r k) s s' e =
      let (a, access, more) =
        >>=-eq-some (read0 (s.cycle_log.state r) (s.rule_log.rwset r) (s.cycle_log.rwset r)) _ e in
      ap (λ v. run_fast (k v) s.cycle_log.state s.rule_log.state) (read0-value _ _ _ a access)
      ∙ run-run_fast (k a.value) s s' (passed a.ok _ _ s' more)
  run-run_fast (Rule.rd1 r k) s s' e =
      let (a, access, more) =
        >>=-eq-some (read1 (s.rule_log.state r) (s.rule_log.rwset r) (s.cycle_log.rwset r)) _ e in
      ap (λ v. run_fast (k v) s.cycle_log.state s.rule_log.state) (read1-value _ _ _ a access)
      ∙ run-run_fast (k a.value) (mark s r a) s' (passed a.ok _ _ s' more)
  run-run_fast (Rule.wr0 r v k) s s' e =
      let (a, access, more) = >>=-eq-some (write0 v (s.rule_log.rwset r)) _ e in
      ap (λ w. run_fast k s.cycle_log.state (update s.rule_log.state r w))
        (write0-value v _ a access)
      ∙ run-run_fast k (store s r a) s' (passed a.ok _ _ s' more)
  run-run_fast (Rule.wr1 r v k) s s' e =
      let (a, access, more) = >>=-eq-some (write1 v (s.rule_log.rwset r)) _ e in
      ap (λ w. run_fast k s.cycle_log.state (update s.rule_log.state r w))
        (write1-value v _ a access)
      ∙ run-run_fast k (store s r a) s' (passed a.ok _ _ s' more)
