-- ===== src/Registers/Spec.antt =====
-- The reference semantics of registers: a log lists the accesses of a cycle, the latest first, and
-- every rule is judged by what the log says. This is Kôika's definition (coq/Logs.v and
-- `interp_action` in coq/TypedSemantics.v), independent of the read-write sets.
use koika.Prelude.{
  ℕ, Bool, true, false, not, ◌&&◌, Option, none, some, List, [], ◌∷◌, ◌++◌, if◌then◌else◌,
}
use koika.Registers.Rule.{Rule, update}

pub data Event : Type 0 where
  read0 read1 : Event
  write0 write1 : ℕ → Event

abbrev pub Events : Type 0
Events = ℕ → List Event

unfoldable pub has_read1 : List Event → Bool
has_read1 [] = false
has_read1 (Event.read1 ∷ es) = true
has_read1 (e ∷ es) = has_read1 es

unfoldable pub has_write0 : List Event → Bool
has_write0 [] = false
has_write0 (Event.write0 v ∷ es) = true
has_write0 (e ∷ es) = has_write0 es

unfoldable pub has_write1 : List Event → Bool
has_write1 [] = false
has_write1 (Event.write1 v ∷ es) = true
has_write1 (e ∷ es) = has_write1 es

-- The value of the latest write at port 0, or `d`.
unfoldable pub latest_write0 : ℕ → List Event → ℕ
latest_write0 d [] = d
latest_write0 d (Event.write0 v ∷ es) = v
latest_write0 d (e ∷ es) = latest_write0 d es

-- The value of the latest write at any port, or `d`: what `commit_update` stores.
unfoldable pub latest_write : ℕ → List Event → ℕ
latest_write d [] = d
latest_write d (Event.write0 v ∷ es) = v
latest_write d (Event.write1 v ∷ es) = v
latest_write d (e ∷ es) = latest_write d es

abbrev pub append : Events → Events → Events
append rule_log sched_log r = rule_log r ++ sched_log r

abbrev pub cons : Events → ℕ → Event → Events
cons log r e = update log r (e ∷ log r)

abbrev pub may_read0 : Events → ℕ → Bool
may_read0 sched_log r = not (has_write0 (sched_log r)) && not (has_write1 (sched_log r))

abbrev pub may_read1 : Events → ℕ → Bool
may_read1 sched_log r = not (has_write1 (sched_log r))

abbrev pub may_write0 : List Event → Bool
may_write0 es = not (has_read1 es) && not (has_write0 es) && not (has_write1 es)

abbrev pub may_write1 : List Event → Bool
may_write1 es = not (has_write1 es)

module _ (R : ℕ → ℕ) (sched_log : Events) where
  -- The log of a rule that commits; `none` if it fails.
  unfoldable pub interp : Rule → Events → Option Events
  interp Rule.commit log = some log
  interp Rule.fail log = none
  interp (Rule.rd0 r k) log =
      if may_read0 sched_log r then interp (k (R r)) (cons log r Event.read0) else none
  interp (Rule.rd1 r k) log =
      if may_read1 sched_log r
      then interp (k (latest_write0 (R r) (log r ++ sched_log r))) (cons log r Event.read1)
      else none
  interp (Rule.wr0 r v k) log =
      if may_write0 (log r ++ sched_log r) then interp k (cons log r (Event.write0 v)) else none
  interp (Rule.wr1 r v k) log =
      if may_write1 (log r ++ sched_log r) then interp k (cons log r (Event.write1 v)) else none

abbrev pub no_events : Events
no_events r = []

-- A rule's log joins the cycle's log if the rule commits.
unfoldable pub interp_rule : (ℕ → ℕ) → Events → Rule → Bool × Events
interp_rule R sched_log rule = elim (interp R sched_log rule no_events) [
  | none ↦ (false, sched_log)
  | some log ↦ (true, append log sched_log)
]

unfoldable pub interp_all : (ℕ → ℕ) → Events → List Rule → List Bool × Events
interp_all R sched_log [] = ([], sched_log)
interp_all R sched_log (rule ∷ rules) =
    let (done, log₁) = interp_rule R sched_log rule in
    let (rest, log₂) = interp_all R log₁ rules in (done ∷ rest, log₂)

unfoldable pub commit_update : (ℕ → ℕ) → Events → ℕ → ℕ
commit_update R log r = latest_write (R r) (log r)
