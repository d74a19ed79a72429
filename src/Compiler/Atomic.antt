-- ===== src/Compiler/Atomic.antt =====
-- One rule at a time: what the reference semantics says of a schedule, and of its committed rules when
-- each has a cycle of its own.
pub mod Cycle
use mathlib.Core.Path.{fun_ext, subst}
use koika.Prelude.{
  ℕ, Bool, true, false, not, ◌&&◌, Option, none, some, List, [], ◌∷◌, ◌++◌, ◌≡◌, refl, sym, ap, ◌∙◌,
  inl, inr, if◌then◌else◌, ◌⊎◌, Option-cases, Bool-cases, All, arith,
}
use koika.Registers.Rule.{Rule, update}
use koika.Registers.Spec.{
  Event, Events, has_read1, has_write0, has_write1, latest_write, latest_write0, may_read0,
  may_read1, may_write0, may_write1, append, cons, interp, interp_rule, no_events, commit_update,
}
use koika.Registers.Refine.Access.{latest_of_no_write1, latest_of_no_write}
use koika.Compiler.Action.{Action, meaning}
use koika.Compiler.Random.{interp_each, Calls}
use koika.Compiler.Schedule.{Scheduler, interp_scheduler}

-- Events of the rule alone are fewer.
module _ (L : List Event) where
  own_read1 : (es : List Event) → has_read1 (es ++ L) ≡ false → has_read1 (es ++ []) ≡ false
  unfolding has_read1
  own_read1 [] h = refl
  own_read1 (Event.read0 ∷ es) h = own_read1 es h
  own_read1 (Event.read1 ∷ es) h = cc
  own_read1 (Event.write0 v ∷ es) h = own_read1 es h
  own_read1 (Event.write1 v ∷ es) h = own_read1 es h

  own_write0 : (es : List Event) → has_write0 (es ++ L) ≡ false → has_write0 (es ++ []) ≡ false
  unfolding has_write0
  own_write0 [] h = refl
  own_write0 (Event.read0 ∷ es) h = own_write0 es h
  own_write0 (Event.read1 ∷ es) h = own_write0 es h
  own_write0 (Event.write0 v ∷ es) h = cc
  own_write0 (Event.write1 v ∷ es) h = own_write0 es h

  own_write1 : (es : List Event) → has_write1 (es ++ L) ≡ false → has_write1 (es ++ []) ≡ false
  unfolding has_write1
  own_write1 [] h = refl
  own_write1 (Event.read0 ∷ es) h = own_write1 es h
  own_write1 (Event.read1 ∷ es) h = own_write1 es h
  own_write1 (Event.write0 v ∷ es) h = own_write1 es h
  own_write1 (Event.write1 v ∷ es) h = cc

  -- The latest write, from the values that committing `L` stores.
  latest_write-append :
      (d : ℕ) (es : List Event)
      → latest_write d (es ++ L) ≡ latest_write (latest_write d L) (es ++ [])
  unfolding latest_write
  latest_write-append d [] = refl
  latest_write-append d (Event.read0 ∷ es) = latest_write-append d es
  latest_write-append d (Event.read1 ∷ es) = latest_write-append d es
  latest_write-append d (Event.write0 v ∷ es) = refl
  latest_write-append d (Event.write1 v ∷ es) = refl

  latest_write0-append :
      (d : ℕ) (es : List Event)
      → has_write1 L ≡ false
      → latest_write0 d (es ++ L) ≡ latest_write0 (latest_write d L) (es ++ [])
  unfolding latest_write0
  latest_write0-append d [] h = latest_of_no_write1 d L h
  latest_write0-append d (Event.read0 ∷ es) h = latest_write0-append d es h
  latest_write0-append d (Event.read1 ∷ es) h = latest_write0-append d es h
  latest_write0-append d (Event.write0 v ∷ es) h = refl
  latest_write0-append d (Event.write1 v ∷ es) h = latest_write0-append d es h

passed_test :
    (ok : Bool) (o : Option Events) (log : Events)
    → (if ok then o else none) ≡ some log
    → (ok ≡ true) × (o ≡ some log)
passed_test true o log e = (refl, e)
passed_test false o log e = cc

module _ (R : ℕ → ℕ) (L : Events) where
  alone_write0 :
      (es : List Event) (r : ℕ) → may_write0 (es ++ L r) ≡ true → may_write0 (es ++ []) ≡ true
  alone_write0 es r ok =
      rw
        (
          own_read1 (L r) es (ground (arith, ok)),
          own_write0 (L r) es (ground (arith, ok)),
          own_write1 (L r) es (ground (arith, ok)),
        )
        refl

  alone_write1 :
      (es : List Event) (r : ℕ) → may_write1 (es ++ L r) ≡ true → may_write1 (es ++ []) ≡ true
  alone_write1 es r ok = rw (own_write1 (L r) es (ground (arith, ok))) refl

  -- A rule that commits after the events `L` commits with the same log in a cycle of its own, from the
  -- values that committing `L` stores.
  interp-alone :
      (rule : Rule) (l log : Events)
      → interp R L rule l ≡ some log
      → interp (commit_update R L) no_events rule l ≡ some log
  unfolding interp commit_update has_write0 has_write1
  interp-alone Rule.commit l log e = e
  interp-alone Rule.fail l log e = cc
  interp-alone (Rule.rd0 r k) l log e =
      let (ok, rest) = passed_test (may_read0 L r) _ log e in
      let same = latest_of_no_write (R r) (L r) (ground (arith, ok)) (ground (arith, ok)) in
      rw same (interp-alone (k (R r)) (cons l r Event.read0) log rest)
  interp-alone (Rule.rd1 r k) l log e =
      let (ok, rest) = passed_test (may_read1 L r) _ log e in
      rw (sym (latest_write0-append (L r) (R r) (l r) (ground (arith, ok))))
        (interp-alone (k (latest_write0 (R r) (l r ++ L r))) (cons l r Event.read1) log rest)
  interp-alone (Rule.wr0 r v k) l log e =
      let (ok, rest) = passed_test (may_write0 (l r ++ L r)) _ log e in
      rw (alone_write0 (l r) r ok) (interp-alone k (cons l r (Event.write0 v)) log rest)
  interp-alone (Rule.wr1 r v k) l log e =
      let (ok, rest) = passed_test (may_write1 (l r ++ L r)) _ log e in
      rw (alone_write1 (l r) r ok) (interp-alone k (cons l r (Event.write1 v)) log rest)

  -- What a rule does in the schedule and alone.
  rule-cases :
      (rule : Rule)
      → (interp_rule R L rule ≡ (false, L))
        ⊎ ((log : Events) × (interp_rule R L rule ≡ (true, append log L))
            × (interp_rule (commit_update R L) no_events rule ≡ (true, append log no_events)))
  unfolding interp_rule
  rule-cases rule = elim (Option-cases (interp R L rule no_events)) [
    | inl fails ↦ inl (rw (interp_rule, fails) refl)
    | inr (log, commits) ↦ inr (
      log,
      rw (interp_rule, commits) refl,
      rw (interp_rule, interp-alone rule no_events log commits) refl,
    )
  ]

commit_update-append :
    (R : ℕ → ℕ) (L log : Events)
    → commit_update (commit_update R L) (append log no_events) ≡ commit_update R (append log L)
unfolding commit_update
commit_update-append R L log = fun_ext (λ r. sym (latest_write-append (L r) (R r) (log r)))

All-map {ℓ κ μ} :
    {A : Type ℓ} {P : A → Type κ} {Q : A → Type μ}
    → ((a : A) → P a → Q a)
    → (xs : List A) → All P xs
    → All Q xs
All-map f [] h = tt
All-map f (x ∷ xs) h = (f x h.0, All-map f xs h.1)

-- The rules that a schedule has called and that have committed, by what the calls returned.
unfoldable pub fired : Scheduler → List Bool → List Action
fired Scheduler.done flags = []
fired (Scheduler.cons a s) [] = []
fired (Scheduler.cons a s) (true ∷ flags) = a ∷ fired s flags
fired (Scheduler.cons a s) (false ∷ flags) = fired s flags
fired (Scheduler.try a s t) [] = []
fired (Scheduler.try a s t) (true ∷ flags) = a ∷ fired s flags
fired (Scheduler.try a s t) (false ∷ flags) = fired t flags

pub fired-Calls : (s : Scheduler) (flags : List Bool) → All (λ a. Calls a s) (fired s flags)
unfolding fired
fired-Calls Scheduler.done flags = tt
fired-Calls (Scheduler.cons a s) [] = tt
fired-Calls (Scheduler.cons a s) (true ∷ flags) =
    (Calls.cons_first, All-map (λ b p. Calls.cons_later p) (fired s flags) (fired-Calls s flags))
fired-Calls (Scheduler.cons a s) (false ∷ flags) =
    All-map (λ b p. Calls.cons_later p) (fired s flags) (fired-Calls s flags)
fired-Calls (Scheduler.try a s t) [] = tt
fired-Calls (Scheduler.try a s t) (true ∷ flags) =
    (Calls.try_first, All-map (λ b p. Calls.try_yes p) (fired s flags) (fired-Calls s flags))
fired-Calls (Scheduler.try a s t) (false ∷ flags) =
    All-map (λ b p. Calls.try_no p) (fired t flags) (fired-Calls t flags)

-- The committed rules, each in a cycle of its own, commit again and store what the schedule stores.
abbrev AloneToo : (ℕ → ℕ) → Events → Scheduler → List Bool × Events → Type 0
AloneToo R L sch x =
    All (λ ok. ok ≡ true) (interp_each (fired sch x.0) (commit_update R L)).0
    × ((interp_each (fired sch x.0) (commit_update R L)).1 ≡ commit_update R x.1)

first_alone :
    (R : ℕ → ℕ) (L log : Events) (a : Action) (choices : List Action) (final : Events)
    → interp_rule (commit_update R L) no_events (meaning a) ≡ (true, append log no_events)
    → All (λ ok. ok ≡ true) (interp_each choices (commit_update R (append log L))).0
      × ((interp_each choices (commit_update R (append log L))).1 ≡ commit_update R final)
    → All (λ ok. ok ≡ true) (interp_each (a ∷ choices) (commit_update R L)).0
      × ((interp_each (a ∷ choices) (commit_update R L)).1 ≡ commit_update R final)
unfolding interp_each
first_alone R L log a choices final alone (flags, stored) =
    rw (alone, commit_update-append R L log) ((refl, flags), stored)

pub interp_scheduler-interp_each :
    (R : ℕ → ℕ) (sch : Scheduler) (L : Events) → AloneToo R L sch (interp_scheduler R L sch)
unfolding interp_scheduler fired interp_each
interp_scheduler-interp_each R Scheduler.done L = (tt, refl)
interp_scheduler-interp_each R (Scheduler.cons a s) L = elim (rule-cases R L (meaning a)) [
  | inl fails ↦ rw fails (interp_scheduler-interp_each R s L)
  | inr (log, commits, alone) ↦
      rw commits (first_alone R L log a _ _ alone (interp_scheduler-interp_each R s (append log L)))
]
interp_scheduler-interp_each R (Scheduler.try a s t) L = elim (rule-cases R L (meaning a)) [
  | inl fails ↦ rw fails (interp_scheduler-interp_each R t L)
  | inr (log, commits, alone) ↦
      rw commits (first_alone R L log a _ _ alone (interp_scheduler-interp_each R s (append log L)))
]
