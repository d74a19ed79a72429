-- ===== src/Compiler/Warning/Complete.antt =====
-- Where the compiler does not warn, no register is read at port 1 after a possible write at port 1.
use koika.Prelude.{
  ℕ, Bool, true, false, not, ◌&&◌, ◌||◌, List, [], ◌≡◌, refl, sym, ap, ◌∙◌, inl, inr, cases_eq,
  arith,
}
use koika.Registers.Dynamic.Outside.{mem}
use koika.Compiler.History.{RegisterKind}
use koika.Compiler.Action.{Action, Histories, annotate, empty_history_map}
use koika.Compiler.Access.{update_same}
use koika.Compiler.Annotated.{both, declared, accepted, no_marks}
use koika.Compiler.Code.{may_fail_without_revert}
use koika.Compiler.Footprint.{mem-filter_registers}
use koika.Compiler.Skip.{absent}
use koika.Compiler.Warning.{
  Accesses, find_conflicts, no_accesses, find_read1s_after_write1s, is_silent, silent_values,
  Agrees, annotate-Agrees,
}

-- A conflict that has been found stays.
find_conflicts-keeps :
    (a : Action) (acc : Accesses) (q : ℕ)
    → acc.acc_conflicts q ≡ true
    → (find_conflicts acc a).acc_conflicts q ≡ true
unfolding find_conflicts
find_conflicts-keeps Action.fail acc q e = e
find_conflicts-keeps (Action.var x) acc q e = e
find_conflicts-keeps (Action.const v) acc q e = e
find_conflicts-keeps (Action.assign x a) acc q e = find_conflicts-keeps a acc q e
find_conflicts-keeps (Action.seq a b) acc q e =
    find_conflicts-keeps b (find_conflicts acc a) q (find_conflicts-keeps a acc q e)
find_conflicts-keeps (Action.bind x a b) acc q e =
    find_conflicts-keeps b (find_conflicts acc a) q (find_conflicts-keeps a acc q e)
find_conflicts-keeps (Action.cond c a b) acc q e =
    rw (find_conflicts-keeps a (find_conflicts acc c) q (find_conflicts-keeps c acc q e)) refl
find_conflicts-keeps (Action.read0 r) acc q e = e
find_conflicts-keeps (Action.read1 r) acc q e = elim (cases_eq q r) [
  | inl (same, t) ↦ rw (t, sym (ap acc.acc_conflicts same), e) refl
  | inr t ↦ rw t e
]
find_conflicts-keeps (Action.write0 r a) acc q e = e
find_conflicts-keeps (Action.write1 r a) acc q e = e
find_conflicts-keeps (Action.unop f a) acc q e = find_conflicts-keeps a acc q e
find_conflicts-keeps (Action.binop f a b) acc q e =
    find_conflicts-keeps b (find_conflicts acc a) q (find_conflicts-keeps a acc q e)

and_true : (a b : Bool) → a ≡ true → b ≡ true → (a && b) ≡ true
and_true a b e f = rw (e, f) refl

module _ (registers : List ℕ) (kinds : ℕ → RegisterKind) where
  -- An action fails without a reset only where it cannot have marked a read-write set.
  unfoldable pub fails_clean : Action → Histories → Bool
  fails_clean Action.fail h =
      not (may_fail_without_revert registers h) || no_marks registers kinds h
  fails_clean (Action.var x) h = true
  fails_clean (Action.const v) h = true
  fails_clean (Action.assign x a) h = fails_clean a h
  fails_clean (Action.seq a b) h = fails_clean a h && fails_clean b (annotate h a)
  fails_clean (Action.bind x a b) h = fails_clean a h && fails_clean b (annotate h a)
  fails_clean (Action.cond c a b) h =
      fails_clean c h && fails_clean a (annotate h c) && fails_clean b (annotate h c)
  fails_clean (Action.read0 r) h = true
  fails_clean (Action.read1 r) h = true
  fails_clean (Action.write0 r a) h = fails_clean a h
  fails_clean (Action.write1 r a) h = fails_clean a h
  fails_clean (Action.unop f a) h = fails_clean a h
  fails_clean (Action.binop f a b) h = fails_clean a h && fails_clean b (annotate h a)

  is_silent-accepted :
      (a : Action) (h : Histories)
      → is_silent a ≡ true
      → fails_clean a h ≡ true
      → accepted registers kinds a h ≡ true
  unfolding is_silent fails_clean accepted
  is_silent-accepted Action.fail h e f = f
  is_silent-accepted (Action.var x) h e f = refl
  is_silent-accepted (Action.const v) h e f = refl
  is_silent-accepted (Action.assign x a) h e f = is_silent-accepted a h e f
  is_silent-accepted (Action.seq a b) h e f =
      let (ea, eb) = both (is_silent a) _ e in
      let (fa, fb) = both (fails_clean a h) _ f in
      and_true _ _ (is_silent-accepted a h ea fa) (is_silent-accepted b (annotate h a) eb fb)
  is_silent-accepted (Action.bind x a b) h e f =
      let (ea, eb) = both (is_silent a) _ e in
      let (fa, fb) = both (fails_clean a h) _ f in
      and_true _ _ (is_silent-accepted a h ea fa) (is_silent-accepted b (annotate h a) eb fb)
  is_silent-accepted (Action.cond c a b) h e f =
      let (eca, eb) = both _ (is_silent b) e in
      let (ec, ea) = both (is_silent c) _ eca in
      let (fca, fb) = both _ (fails_clean b (annotate h c)) f in
      let (fc, fa) = both (fails_clean c h) _ fca in
      and_true _ _
        (and_true _ _ (is_silent-accepted c h ec fc) (is_silent-accepted a (annotate h c) ea fa))
        (is_silent-accepted b (annotate h c) eb fb)
  is_silent-accepted (Action.read0 r) h e f = cc
  is_silent-accepted (Action.read1 r) h e f = cc
  is_silent-accepted (Action.write0 r a) h e f = cc
  is_silent-accepted (Action.write1 r a) h e f = cc
  is_silent-accepted (Action.unop g a) h e f = is_silent-accepted a h e f
  is_silent-accepted (Action.binop g a b) h e f =
      let (ea, eb) = both (is_silent a) _ e in
      let (fa, fb) = both (fails_clean a h) _ f in
      and_true _ _ (is_silent-accepted a h ea fa) (is_silent-accepted b (annotate h a) eb fb)

  -- No conflict on a register of the design.
  abbrev Quiet : Accesses → Type 0
  Quiet acc = (q : ℕ) → mem q registers ≡ true → acc.acc_conflicts q ≡ false

  earlier : (a : Action) (acc : Accesses) → Quiet (find_conflicts acc a) → Quiet acc
  earlier a acc quiet q m = absent _ _ (find_conflicts-keeps a acc q) (quiet q m)

  read1-accepted :
      (h : Histories) (acc : Accesses) (r : ℕ)
      → mem r registers ≡ true
      → Agrees acc h
      → Quiet (find_conflicts acc (Action.read1 r))
      → accepted registers kinds (Action.read1 r) h ≡ true
  unfolding find_conflicts accepted
  read1-accepted h acc r m k quiet =
      let found =
        sym (update_same acc.acc_conflicts r (acc.acc_conflicts r || acc.acc_wr1 r)) ∙ quiet r m in
      rw (k r) (ground (arith, found))

  -- After actions whose accesses `acc` holds, an action without conflicts is accepted.
  abbrev Follows : Action → Type 0
  Follows a =
      (h : Histories) (acc : Accesses)
      → declared registers a ≡ true
      → silent_values a ≡ true
      → Agrees acc h
      → Quiet (find_conflicts acc a)
      → fails_clean a h ≡ true
      → accepted registers kinds a h ≡ true

  seq-Follows : (a b : Action) → Follows a → Follows b → Follows (Action.seq a b)
  unfolding declared silent_values find_conflicts fails_clean accepted
  seq-Follows a b first second h acc d e k quiet f =
      let (da, db) = both (declared registers a) _ d in
      let (ea, eb) = both (silent_values a) _ e in
      let (fa, fb) = both (fails_clean a h) _ f in
      and_true _ _ (first h acc da ea k (earlier b (find_conflicts acc a) quiet) fa)
        (second (annotate h a) (find_conflicts acc a) db eb (annotate-Agrees a h acc ea k) quiet fb)

  cond-Follows : (c a b : Action) → Follows c → Follows a → Follows b → Follows (Action.cond c a b)
  unfolding declared silent_values find_conflicts fails_clean accepted
  cond-Follows c a b test yes_branch no_branch h acc d e k quiet f =
      let (dca, db) = both _ (declared registers b) d in
      let (dc, da) = both (declared registers c) _ dca in
      let (eca, eb) = both _ (silent_values b) e in
      let (ec, ea) = both (silent_values c) _ eca in
      let (fca, fb) = both _ (fails_clean b (annotate h c)) f in
      let (fc, fa) = both (fails_clean c h) _ fca in
      let acc₁ = find_conflicts acc c in
      let k₁ = annotate-Agrees c h acc ec k in
      let quiet_a : Quiet (find_conflicts acc₁ a) = λ q m. ground (arith, quiet q m) in
      let quiet_b : Quiet (find_conflicts acc₁ b) = λ q m. ground (arith, quiet q m) in
      and_true _ _
        (and_true _ _ (test h acc dc ec k (earlier a acc₁ quiet_a) fc)
          (yes_branch (annotate h c) acc₁ da ea k₁ quiet_a fa))
        (no_branch (annotate h c) acc₁ db eb k₁ quiet_b fb)

  follows : (a : Action) → Follows a
  unfolding declared silent_values find_conflicts fails_clean accepted
  follows Action.fail h acc d e k quiet f = f
  follows (Action.var x) h acc d e k quiet f = refl
  follows (Action.const v) h acc d e k quiet f = refl
  follows (Action.assign x a) h acc d e k quiet f = follows a h acc d e k quiet f
  follows (Action.seq a b) h acc d e k quiet f =
      seq-Follows a b (follows a) (follows b) h acc d e k quiet f
  follows (Action.bind x a b) h acc d e k quiet f =
      seq-Follows a b (follows a) (follows b) h acc d e k quiet f
  follows (Action.cond c a b) h acc d e k quiet f =
      cond-Follows c a b (follows c) (follows a) (follows b) h acc d e k quiet f
  follows (Action.read0 r) h acc d e k quiet f = refl
  follows (Action.read1 r) h acc d e k quiet f = read1-accepted h acc r d k quiet
  follows (Action.write0 r a) h acc d e k quiet f = is_silent-accepted a h e f
  follows (Action.write1 r a) h acc d e k quiet f = is_silent-accepted a h e f
  follows (Action.unop g a) h acc d e k quiet f = follows a h acc d e k quiet f
  follows (Action.binop g a b) h acc d e k quiet f =
      seq-Follows a b (follows a) (follows b) h acc d e k quiet f

  -- For a rule that uses only registers of the design and in which no value of a write makes
  -- accesses: if `find_read1s_after_write1s` finds nothing to warn about, the rule reads no
  -- register at port 1 after a possible write at port 1. So it is accepted if, as far as the
  -- analysis knows, it fails without a reset only where it has marked no read-write set.
  pub find_read1s-accepted :
      (a : Action)
      → declared registers a ≡ true
      → silent_values a ≡ true
      → find_read1s_after_write1s registers a ≡ []
      → fails_clean a empty_history_map ≡ true
      → accepted registers kinds a empty_history_map ≡ true
  unfolding mem
  find_read1s-accepted a d e none_found f =
      follows a empty_history_map no_accesses d e (λ q. refl)
        (λ q m.
          sym (rw m refl)
          ∙ sym (mem-filter_registers q (find_conflicts no_accesses a).acc_conflicts registers)
          ∙ ap (mem q) none_found)
        f
