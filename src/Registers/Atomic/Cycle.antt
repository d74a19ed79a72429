-- ===== src/Registers/Atomic/Cycle.antt =====
-- Whole cycles, rule by rule.
use koika.Prelude.{
  ℕ, Bool, true, false, Option, none, some, List, [], ◌∷◌, ◌≡◌, refl, sym, ap, ◌∙◌, if◌then◌else◌,
  ◌>>=◌, some_inj, >>=-eq-some,
}
use mathlib.Core.Path.{subst}
use koika.Registers.{Rwset, Access, reset}
use koika.Registers.Rule.{Rule, Log, Sim, Generated, run, run_all, fresh, store, mark}
use koika.Registers.Atomic.{IsBelow, IsFreer, run-IsFreer}

-- The next cycle starts from the values of the last.
unfoldable pub next_cycle : Sim → Sim
next_cycle s = fresh s.cycle_log.state s.cycle_log.rwset

-- Each rule runs in a cycle of its own, and has to commit.
unfoldable pub one_at_a_time : Generated → List Rule → Sim → Option Sim
one_at_a_time g [] s = some s
one_at_a_time g (rule ∷ rules) s = do
  (done, s₁) ← run g rule (next_cycle s)
  if done then one_at_a_time g rules s₁ else none

-- The rules of a schedule that have committed.
unfoldable pub committed : List Rule → List Bool → List Rule
committed [] flags = []
committed (rule ∷ rules) [] = []
committed (rule ∷ rules) (true ∷ flags) = rule ∷ committed rules flags
committed (rule ∷ rules) (false ∷ flags) = committed rules flags

abbrev pub Agrees : Sim → Type 0
Agrees s = s.rule_log ≡ s.cycle_log

-- How a rule that started from the cycle's log `l` ends: the logs agree, and if the rule has failed
-- the cycle's log is `l` still.
abbrev pub Ends : Log → Bool → Sim → Type 0
Ends l done s = Agrees s × (done ≡ false → s.cycle_log ≡ l)

if_end :
    (ok : Bool) (rest : Option (Bool × Sim)) (aborted : Sim) (l : Log) (done : Bool) (s : Sim)
    → (if ok then rest else some (false, aborted)) ≡ some (done, s)
    → (rest ≡ some (done, s) → Ends l done s)
    → Ends l false aborted
    → Ends l done s
if_end true rest aborted l done s e h k = h e
if_end false rest aborted l done s e h k = subst (λ (x : Bool × Sim). Ends l x.0 x.1) (some_inj e) k

guarded_end :
    (o : Option Access) (rest : Access → Option (Bool × Sim)) (abort : Access → Sim) (l : Log)
    (done : Bool) (s : Sim)
    → (o >>= λ a. if a.ok then rest a else some (false, abort a)) ≡ some (done, s)
    → ((a : Access) → rest a ≡ some (done, s) → Ends l done s)
    → ((a : Access) → Ends l false (abort a))
    → Ends l done s
guarded_end none rest abort l done s e h k = cc
guarded_end (some a) rest abort l done s e h k =
    if_end a.ok (rest a) (abort a) l done s e (h a) (k a)

module _ (g : Generated) where
  reset-Ends : (s : Sim) → Ends s.cycle_log false (g.reset_rule s)
  reset-Ends s = rw (g.reset_copies s) (refl, λ _. refl)

  run-Ends :
      (rule : Rule) (s : Sim) (done : Bool) (s' : Sim)
      → run g rule s ≡ some (done, s')
      → Ends s.cycle_log done s'
  unfolding run store mark
  run-Ends Rule.commit s done s' e =
      subst (λ (x : Bool × Sim). Ends s.cycle_log x.0 x.1) (some_inj e)
        (rw (g.commit_copies s) (refl, λ h. cc))
  run-Ends Rule.fail s done s' e =
      subst (λ (x : Bool × Sim). Ends s.cycle_log x.0 x.1) (some_inj e) (reset-Ends s)
  run-Ends (Rule.rd0 r k) s done s' e =
      guarded_end _ _ _ s.cycle_log done s' e (λ a. run-Ends (k a.value) s done s')
        (λ a. reset-Ends s)
  run-Ends (Rule.rd1 r k) s done s' e =
      guarded_end _ _ _ s.cycle_log done s' e (λ a. run-Ends (k a.value) (mark s r a) done s')
        (λ a. reset-Ends (mark s r a))
  run-Ends (Rule.wr0 r v k) s done s' e =
      guarded_end _ _ _ s.cycle_log done s' e (λ a. run-Ends k (store s r a) done s')
        (λ a. reset-Ends (store s r a))
  run-Ends (Rule.wr1 r v k) s done s' e =
      guarded_end _ _ _ s.cycle_log done s' e (λ a. run-Ends k (store s r a) done s')
        (λ a. reset-Ends (store s r a))

-- `t`, which has run the committed rules alone, holds the cycle's values and forbids no more.
pub record Follows (t s : Sim) : Type 0 where
  pub state : (r : ℕ) → t.cycle_log.state r ≡ s.cycle_log.state r
  pub rwset : (r : ℕ) → IsBelow (t.cycle_log.rwset r) (s.cycle_log.rwset r)
  pub agrees : Agrees s

reset-IsBelow : {a b : Rwset} → IsBelow a b → IsBelow (reset a) b
unfolding reset
reset-IsBelow (IsBelow.reg f) = IsBelow.reg (λ h. cc)
reset-IsBelow (IsBelow.wire f h) = IsBelow.wire (λ h. cc) (λ h. cc)
reset-IsBelow (IsBelow.ehr f h k) = IsBelow.ehr (λ h. cc) (λ h. cc) (λ h. cc)

IsBelow-refl : (a : Rwset) → IsBelow a a
IsBelow-refl (Rwset.reg w0) = IsBelow.reg (λ h. h)
IsBelow-refl (Rwset.wire r1 w0) = IsBelow.wire (λ h. h) (λ h. h)
IsBelow-refl (Rwset.ehr r1 w0 w1) = IsBelow.ehr (λ h. h) (λ h. h) (λ h. h)

next_cycle-IsFreer : {t s : Sim} → Follows t s → IsFreer (next_cycle t) s
unfolding next_cycle fresh
next_cycle-IsFreer {t} f = record {
  cycle_state = f.state;
  rule_state = λ r. f.state r ∙ ap (λ (l : Log). l.state r) (sym f.agrees);
  cycle_rwset = λ r. reset-IsBelow (f.rwset r);
  rule_rwset = λ r.
      subst (λ (l : Log). IsBelow ((next_cycle t).rule_log.rwset r) (l.rwset r)) (sym f.agrees)
        (reset-IsBelow (f.rwset r));
}

module _ (g : Generated) where
  -- After a rule that fails, `t` still follows; after one that commits, so does its own run.
  Follows-failed : {t s s' : Sim} → Follows t s → Ends s.cycle_log false s' → Follows t s'
  Follows-failed {t} f (agrees, same) = record {
    state = λ r. f.state r ∙ ap (λ (l : Log). l.state r) (sym (same refl));
    rwset = λ r.
        subst (λ (l : Log). IsBelow (t.cycle_log.rwset r) (l.rwset r)) (sym (same refl))
          (f.rwset r);
    agrees = agrees;
  }

  Follows-committed : {t s : Sim} → IsFreer t s → Agrees s → Follows t s
  Follows-committed f agrees = record {
    state = f.cycle_state;
    rwset = f.cycle_rwset;
    agrees = agrees;
  }

  -- What the rules that committed do on `t`, each in a cycle of its own.
  abbrev Solo : List Rule → Sim → List Bool × Sim → Type 0
  Solo rules t x = (t' : Sim) × (one_at_a_time g (committed rules x.0) t ≡ some t') × Follows t' x.1

  -- One rule of the schedule, committed or not, and then the others.
  one_step :
      (rule : Rule) (rules : List Rule) {t s : Sim} (done : Bool) {s₁ : Sim} (x : List Bool × Sim)
      → Follows t s
      → run g rule s ≡ some (done, s₁)
      → ((u : Sim) → Follows u s₁ → Solo rules u x)
      → Solo (rule ∷ rules) t (done ∷ x.0, x.1)
  unfolding committed one_at_a_time
  one_step rule rules {t} {s} true {s₁} x f ran others =
      let (u, solo, freer) = run-IsFreer g rule (next_cycle-IsFreer f) ran in
      let (t', rest, follows) =
        others u (Follows-committed freer (run-Ends g rule s true s₁ ran).0) in
      (t', rw (solo, rest), follows)
  one_step rule rules {t} {s} false {s₁} x f ran others =
      others t (Follows-failed f (run-Ends g rule s false s₁ ran))

  run_all-Solo :
      (rules : List Rule) {t s : Sim} (x : List Bool × Sim)
      → Follows t s
      → run_all g rules s ≡ some x
      → Solo rules t x
  unfolding run_all
  run_all-Solo [] {t} x f e =
      subst (Solo [] t) (some_inj e) (t, (unfold one_at_a_time committed in refl), f)
  run_all-Solo (rule ∷ rules) {t} {s} x f e =
      let (a, ran, more) = >>=-eq-some (run g rule s) _ e in
      let (y, others, last) = >>=-eq-some (run_all g rules a.1) _ more in
      subst (Solo (rule ∷ rules) t) (some_inj last)
        (one_step rule rules a.0 y f ran (λ u h. run_all-Solo rules y h others))

-- A cycle that starts with equal logs and runs to its end leaves the registers as its committed rules
-- do when each of them runs alone, in a cycle of its own, in the order of the schedule; and alone they
-- commit too.
pub run_all-one_at_a_time :
    (g : Generated) (rules : List Rule) (s s' : Sim) (flags : List Bool)
    → s.rule_log ≡ s.cycle_log
    → run_all g rules s ≡ some (flags, s')
    → (t' : Sim) × (one_at_a_time g (committed rules flags) s ≡ some t')
      × ((r : ℕ) → t'.cycle_log.state r ≡ s'.cycle_log.state r)
run_all-one_at_a_time g rules s s' flags agrees e =
    let (t', solo, follows) = run_all-Solo g rules (flags, s') start e in (t', solo, follows.state)
  where
    start : Follows s s
    start = record {
      state = λ r. refl;
      rwset = λ r. IsBelow-refl (s.cycle_log.rwset r);
      agrees = agrees;
    }
