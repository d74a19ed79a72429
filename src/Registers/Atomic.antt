-- ===== src/Registers/Atomic.antt =====
-- One rule at a time: a cycle has the effect of running the rules that it commits one after the
-- other, each alone in a cycle of its own.
pub mod Cycle
use mathlib.Core.Path.{subst}
use mathlib.Core.Bool.{false≢true}
use koika.Prelude.{
  ℕ, ◌==◌, ==_iff, Bool, true, false, not, ◌||◌, Option, none, some, List, [], ◌∷◌, ◌≡◌, refl, sym,
  ap, ◌∙◌, arith, if◌then◌else◌, ◌>>=◌, inl, inr, some_inj, Bool-cases,
}
use koika.Registers.{
  Rwset, Access, may_read0, may_read1, may_write0, may_write1, set_r1, set_w0, set_w1, reset, read0,
  read1, write0, write1,
}
use koika.Registers.Rule.{Rule, Log, Sim, update, store, mark, Generated, run, run_all, fresh}

-- `a` forbids no access that `b` allows: the same kind, and no bit more.
pub data IsBelow : Rwset → Rwset → Type 0 where
  reg : {a b : Bool} → (a ≡ true → b ≡ true) → IsBelow (Rwset.reg a) (Rwset.reg b)
  wire :
      {a b c d : Bool}
      → (a ≡ true → b ≡ true)
      → (c ≡ true → d ≡ true)
      → IsBelow (Rwset.wire a c) (Rwset.wire b d)
  ehr :
      {a b c d e f : Bool}
      → (a ≡ true → b ≡ true)
      → (c ≡ true → d ≡ true)
      → (e ≡ true → f ≡ true)
      → IsBelow (Rwset.ehr a c e) (Rwset.ehr b d f)

-- Two simulators hold the same values, and the first forbids no more.
pub record IsFreer (t s : Sim) : Type 0 where
  pub cycle_state : (r : ℕ) → t.cycle_log.state r ≡ s.cycle_log.state r
  pub rule_state : (r : ℕ) → t.rule_log.state r ≡ s.rule_log.state r
  pub cycle_rwset : (r : ℕ) → IsBelow (t.cycle_log.rwset r) (s.cycle_log.rwset r)
  pub rule_rwset : (r : ℕ) → IsBelow (t.rule_log.rwset r) (s.rule_log.rwset r)

-- An access that succeeds on the larger set succeeds on the smaller, with the same value, and the
-- sets stay in order.
abbrev Allowed : Option Access → Option Access → Type 0
Allowed x y =
    (b : Access)
    → y ≡ some b
    → b.ok ≡ true
    → (a : Access) × (x ≡ some a) × (a.ok ≡ true) × (a.value ≡ b.value) × IsBelow a.rwset b.rwset

-- The set that an access which returned `b` has left.
left_by :
    {ok : Bool} {v : ℕ} {p q : Rwset} {b : Access}
    → some (record { ok = ok; value = v; rwset = q }) ≡ some b
    → IsBelow p q
    → IsBelow p b.rwset
left_by {p = p} e h = subst (λ x. IsBelow p x) (ap (λ (x : Access). x.rwset) (some_inj e)) h

module _ (v w : ℕ) (same : v ≡ w) where
  read0-Allowed :
      {p q l m : Rwset} → IsBelow p q → IsBelow l m → Allowed (read0 v p l) (read0 w q m)
  unfolding read0 may_read0
  read0-Allowed below (reg h) b e ok = (_, refl, ground arith, ground arith, left_by e below)
  read0-Allowed below (wire h k) b e ok = cc
  read0-Allowed below (ehr f h k) b e ok = (_, refl, ground arith, ground arith, left_by e below)

  read1-Allowed :
      {p q l m : Rwset} → IsBelow p q → IsBelow l m → Allowed (read1 v p l) (read1 w q m)
  unfolding read1 may_read1 set_r1
  read1-Allowed below (reg h) b e ok = cc
  read1-Allowed (reg f) (wire h k) b e ok = cc
  read1-Allowed (wire f g) (wire h k) b e ok =
      (_, refl, ground arith, ground arith, left_by e (wire (λ _. refl) g))
  read1-Allowed (ehr f g c) (wire h k) b e ok =
      (_, refl, ground arith, ground arith, left_by e (ehr (λ _. refl) g c))
  read1-Allowed (reg f) (ehr c h k) b e ok = cc
  read1-Allowed (wire f g) (ehr c h k) b e ok =
      (_, refl, ground arith, ground arith, left_by e (wire (λ _. refl) g))
  read1-Allowed (ehr f g d) (ehr c h k) b e ok =
      (_, refl, ground arith, ground arith, left_by e (ehr (λ _. refl) g d))

  write0-Allowed : {p q : Rwset} → IsBelow p q → Allowed (write0 v p) (write0 w q)
  unfolding write0 may_write0 set_w0
  write0-Allowed (reg f) b e ok = (_, refl, ground arith, ground arith, left_by e (reg (λ _. refl)))
  write0-Allowed (wire f g) b e ok =
      (_, refl, ground arith, ground arith, left_by e (wire f (λ _. refl)))
  write0-Allowed (ehr f g h) b e ok =
      (_, refl, ground arith, ground arith, left_by e (ehr f (λ _. refl) h))

  write1-Allowed : {p q : Rwset} → IsBelow p q → Allowed (write1 v p) (write1 w q)
  unfolding write1 may_write1 set_w1
  write1-Allowed (reg f) b e ok = cc
  write1-Allowed (wire f g) b e ok = cc
  write1-Allowed (ehr f g h) b e ok =
      (_, refl, ground arith, ground arith, left_by e (ehr f g (λ _. refl)))

-- The steps of a rule: an access, its check, and the rest or a reset.
abbrev guarded :
    Option Access → (Access → Option (Bool × Sim)) → (Access → Sim) → Option (Bool × Sim)
guarded o rest abort = o >>= λ a. if a.ok then rest a else some (false, abort a)

if_inv :
    (ok : Bool) (x : Option (Bool × Sim)) (aborted : Sim) {s : Sim}
    → (if ok then x else some (false, aborted)) ≡ some (true, s)
    → (ok ≡ true) × (x ≡ some (true, s))
if_inv true x aborted e = (refl, e)
if_inv false x aborted e = cc

guarded_inv :
    (o : Option Access) (rest : Access → Option (Bool × Sim)) (abort : Access → Sim) {s : Sim}
    → guarded o rest abort ≡ some (true, s)
    → (b : Access) × (o ≡ some b) × (b.ok ≡ true) × (rest b ≡ some (true, s))
guarded_inv none rest abort e = cc
guarded_inv (some b) rest abort e =
    let (ok, e') = if_inv b.ok (rest b) (abort b) e in (b, refl, ok, e')

guarded_run :
    {o : Option Access} (rest : Access → Option (Bool × Sim)) (abort : Access → Sim) (a : Access)
    → o ≡ some a
    → a.ok ≡ true
    → guarded o rest abort ≡ rest a
guarded_run rest abort a e ok = ground arith

-- Rewriting one register of each keeps two families in order.
update-IsBelow :
    {f g : ℕ → Rwset} (r : ℕ) {p q : Rwset}
    → ((j : ℕ) → IsBelow (f j) (g j))
    → IsBelow p q
    → (j : ℕ) → IsBelow (update f r p j) (update g r q j)
update-IsBelow r h k j = elim (Bool-cases (j == r)) [
  | inl same ↦ rw same k
  | inr other ↦ rw other (h j)
]

update-eq :
    {f g : ℕ → ℕ} (r : ℕ) {p q : ℕ}
    → ((j : ℕ) → f j ≡ g j)
    → p ≡ q
    → (j : ℕ) → update f r p j ≡ update g r q j
update-eq r h k j = ground (arith, h j)

store-IsFreer :
    {t s : Sim} (r : ℕ) (a b : Access)
    → IsFreer t s
    → a.value ≡ b.value
    → IsBelow a.rwset b.rwset
    → IsFreer (store t r a) (store s r b)
unfolding store
store-IsFreer r a b f e h = record {
  cycle_state = f.cycle_state;
  rule_state = update-eq r f.rule_state e;
  cycle_rwset = f.cycle_rwset;
  rule_rwset = update-IsBelow r f.rule_rwset h;
}

mark-IsFreer :
    {t s : Sim} (r : ℕ) (a b : Access)
    → IsFreer t s
    → IsBelow a.rwset b.rwset
    → IsFreer (mark t r a) (mark s r b)
unfolding mark
mark-IsFreer r a b f h = record {
  cycle_state = f.cycle_state;
  rule_state = f.rule_state;
  cycle_rwset = f.cycle_rwset;
  rule_rwset = update-IsBelow r f.rule_rwset h;
}

module _ (g : Generated) where
  commit-IsFreer : {t s : Sim} → IsFreer t s → IsFreer (g.commit_rule t) (g.commit_rule s)
  commit-IsFreer {t} {s} f =
      rw (g.commit_copies t, g.commit_copies s)
        (record {
          cycle_state = f.rule_state;
          rule_state = f.rule_state;
          cycle_rwset = f.rule_rwset;
          rule_rwset = f.rule_rwset;
        })

  -- A rule that commits also commits, with the same effect, where less is forbidden.
  run-IsFreer :
      (rule : Rule) {t s s' : Sim}
      → IsFreer t s
      → run g rule s ≡ some (true, s')
      → (t' : Sim) × (run g rule t ≡ some (true, t')) × IsFreer t' s'
  unfolding run
  run-IsFreer Rule.commit {t} {s} f e = (
    g.commit_rule t,
    refl,
    subst (λ x. IsFreer (g.commit_rule t) x) (ap second (some_inj e)) (commit-IsFreer f),
  )
    where
      second : Bool × Sim → Sim
      second x = x.1
  run-IsFreer Rule.fail f e = cc
  run-IsFreer (Rule.rd0 r k) {t} {s} {s'} f e =
      let (b, eb, okb, rest) =
        guarded_inv (read0 (s.cycle_log.state r) (s.rule_log.rwset r) (s.cycle_log.rwset r))
          (λ a. run g (k a.value) s) (λ a. g.reset_rule s) e in
      let (a, ea, oka, value, below) =
        read0-Allowed _ _ (f.cycle_state r) (f.rule_rwset r) (f.cycle_rwset r) b eb okb in
      let rest' : run g (k a.value) s ≡ some (true, s') = rw value rest in
      let (t', ran, freer) = run-IsFreer (k a.value) f rest' in
      (t', guarded_run _ _ a ea oka ∙ ran, freer)
  run-IsFreer (Rule.rd1 r k) {t} {s} {s'} f e =
      let (b, eb, okb, rest) =
        guarded_inv (read1 (s.rule_log.state r) (s.rule_log.rwset r) (s.cycle_log.rwset r))
          (λ a. run g (k a.value) (mark s r a)) (λ a. g.reset_rule (mark s r a)) e in
      let (a, ea, oka, value, below) =
        read1-Allowed _ _ (f.rule_state r) (f.rule_rwset r) (f.cycle_rwset r) b eb okb in
      let rest' : run g (k a.value) (mark s r b) ≡ some (true, s') = rw value rest in
      let (t', ran, freer) = run-IsFreer (k a.value) (mark-IsFreer r a b f below) rest' in
      (t', guarded_run _ _ a ea oka ∙ ran, freer)
  run-IsFreer (Rule.wr0 r v k) {t} {s} f e =
      let (b, eb, okb, rest) =
        guarded_inv (write0 v (s.rule_log.rwset r)) (λ a. run g k (store s r a))
          (λ a. g.reset_rule (store s r a)) e in
      let (a, ea, oka, value, below) = write0-Allowed v v refl (f.rule_rwset r) b eb okb in
      let (t', ran, freer) = run-IsFreer k (store-IsFreer r a b f value below) rest in
      (t', guarded_run _ _ a ea oka ∙ ran, freer)
  run-IsFreer (Rule.wr1 r v k) {t} {s} f e =
      let (b, eb, okb, rest) =
        guarded_inv (write1 v (s.rule_log.rwset r)) (λ a. run g k (store s r a))
          (λ a. g.reset_rule (store s r a)) e in
      let (a, ea, oka, value, below) = write1-Allowed v v refl (f.rule_rwset r) b eb okb in
      let (t', ran, freer) = run-IsFreer k (store-IsFreer r a b f value below) rest in
      (t', guarded_run _ _ a ea oka ∙ ran, freer)
