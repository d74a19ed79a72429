-- ===== src/Registers/Dynamic.antt =====
-- Rules with a dynamic log: the macros READ0_DOL, READ1_DOL, WRITE0_DOL, WRITE1_DOL, FAIL_DOL and
-- COMMIT_DOL of ocaml/backends/resources/cuttlesim.hpp, its `stack`, and `apply`, which
-- ocaml/backends/cpp.ml prints. The log is the list of the registers that a rule has touched, in the
-- place of their `offsets`. (No design is compiled this way: the compiler's flag is off.)
pub mod Outside
pub mod Equivalent
use koika.Prelude.{
  ℕ, Bool, true, false, Option, none, some, List, [], ◌∷◌, ◌++◌, length, ltb, if◌then◌else◌, ◌>>=◌,
}
use koika.Registers.{read0, read1, write0, write1}
use koika.Registers.Rule.{Rule, Log, Sim, update, store, mark}

-- `stack::push`; a write behind the array is undefined.
unfoldable pub push {ℓ} : {A : Type ℓ} → ℕ → List A → A → Option (List A)
push capacity values value =
    if ltb (length values) capacity then some (values ++ (value ∷ [])) else none

-- `memcpy` at the places of one register, in the states and in the sets.
abbrev pub copy_register : ℕ → Log → Log → Log
copy_register r dst src = record {
  state = update dst.state r (src.state r);
  rwset = update dst.rwset r (src.rwset r);
}

-- `dlog.apply(dst, src)`
pub apply : List ℕ → Log → Log → Log
apply [] dst src = dst
apply (r ∷ dlog) dst src = apply dlog (copy_register r dst src) src

pub commit_dol : List ℕ → Sim → Sim
commit_dol dlog s = record s { cycle_log = apply dlog s.cycle_log s.rule_log }

pub fail_dol : List ℕ → Sim → Sim
fail_dol dlog s = record s { rule_log = apply dlog s.rule_log s.cycle_log }

-- A rule, by the capacity of its dynamic log.
unfoldable pub run_dol : ℕ → Rule → List ℕ → Sim → Option (Bool × Sim)
unfolding commit_dol fail_dol
run_dol capacity Rule.commit dlog s = some (true, commit_dol dlog s)
run_dol capacity Rule.fail dlog s = some (false, fail_dol dlog s)
run_dol capacity (Rule.rd0 r k) dlog s = do
  touched ← push capacity dlog r
  a ← read0 (s.cycle_log.state r) (s.rule_log.rwset r) (s.cycle_log.rwset r)
  if a.ok then run_dol capacity (k a.value) touched s else some (false, fail_dol touched s)
run_dol capacity (Rule.rd1 r k) dlog s = do
  touched ← push capacity dlog r
  a ← read1 (s.rule_log.state r) (s.rule_log.rwset r) (s.cycle_log.rwset r)
  if a.ok
      then run_dol capacity (k a.value) touched (mark s r a)
      else some (false, fail_dol touched (mark s r a))
run_dol capacity (Rule.wr0 r v k) dlog s = do
  touched ← push capacity dlog r
  a ← write0 v (s.rule_log.rwset r)
  if a.ok
      then run_dol capacity k touched (store s r a)
      else some (false, fail_dol touched (store s r a))
run_dol capacity (Rule.wr1 r v k) dlog s = do
  touched ← push capacity dlog r
  a ← write1 v (s.rule_log.rwset r)
  if a.ok
      then run_dol capacity k touched (store s r a)
      else some (false, fail_dol touched (store s r a))
