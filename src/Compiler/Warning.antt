-- ===== src/Compiler/Warning.antt =====
-- The compiler's warning about reads at port 1 after writes at port 1:
-- `find_read1s_after_write1s` of coq/TypedSyntaxFunctions.v.
pub mod Complete
use koika.Prelude.{
  ℕ, ◌==◌, Bool, true, false, not, ◌&&◌, ◌||◌, List, [], ◌∷◌, ◌≡◌, refl, sym, ap, ◌∙◌, inl, inr,
  cases_eq, Bool-cases, arith,
}
use koika.Registers.Rule.{update}
use koika.Registers.Dynamic.Outside.{mem}
use koika.Compiler.History.{
  Tribool, History, RegisterKind, may, join_tribools, update_read0, update_read1, update_write0,
  update_write1,
}
use koika.Compiler.Action.{
  Action, Histories, annotate, update_map, join_history_maps, empty_history_map,
}
use koika.Compiler.Annotated.{both, declared, accepted, no_marks}
use koika.Compiler.Code.{filter_registers, may_fail_without_revert}

-- `rd1_wr1_acc_t`
pub record Accesses : Type 0 where
  pub acc_wr1 : ℕ → Bool
  pub acc_conflicts : ℕ → Bool

abbrev pub join_bools : (ℕ → Bool) → (ℕ → Bool) → ℕ → Bool
join_bools f g r = f r || g r

-- The value of a write is not visited.
unfoldable pub find_conflicts : Accesses → Action → Accesses
find_conflicts acc Action.fail = acc
find_conflicts acc (Action.var x) = acc
find_conflicts acc (Action.const v) = acc
find_conflicts acc (Action.assign x a) = find_conflicts acc a
find_conflicts acc (Action.seq a b) = find_conflicts (find_conflicts acc a) b
find_conflicts acc (Action.bind x a b) = find_conflicts (find_conflicts acc a) b
find_conflicts acc (Action.cond c a b) =
    let acc₁ = find_conflicts acc c in
    let acc_t = find_conflicts acc₁ a in
    let acc_f = find_conflicts acc₁ b in
    record {
      acc_wr1 = join_bools acc_t.acc_wr1 acc_f.acc_wr1;
      acc_conflicts = join_bools acc_t.acc_conflicts acc_f.acc_conflicts;
    }
find_conflicts acc (Action.read0 r) = acc
find_conflicts acc (Action.read1 r) = record acc {
  acc_conflicts = update acc.acc_conflicts r (acc.acc_conflicts r || acc.acc_wr1 r);
}
find_conflicts acc (Action.write0 r a) = acc
find_conflicts acc (Action.write1 r a) = record acc { acc_wr1 = update acc.acc_wr1 r true }
find_conflicts acc (Action.unop f a) = find_conflicts acc a
find_conflicts acc (Action.binop f a b) = find_conflicts (find_conflicts acc a) b

abbrev pub no_accesses : Accesses
no_accesses = record { acc_wr1 = λ r. false; acc_conflicts = λ r. false }

abbrev pub find_read1s_after_write1s : List ℕ → Action → List ℕ
find_read1s_after_write1s registers a =
    filter_registers (find_conflicts no_accesses a).acc_conflicts registers

-- An action without accesses.
unfoldable pub is_silent : Action → Bool
is_silent Action.fail = true
is_silent (Action.var x) = true
is_silent (Action.const v) = true
is_silent (Action.assign x a) = is_silent a
is_silent (Action.seq a b) = is_silent a && is_silent b
is_silent (Action.bind x a b) = is_silent a && is_silent b
is_silent (Action.cond c a b) = is_silent c && is_silent a && is_silent b
is_silent (Action.read0 r) = false
is_silent (Action.read1 r) = false
is_silent (Action.write0 r a) = false
is_silent (Action.write1 r a) = false
is_silent (Action.unop f a) = is_silent a
is_silent (Action.binop f a b) = is_silent a && is_silent b

-- The values of all writes make no accesses.
unfoldable pub silent_values : Action → Bool
silent_values Action.fail = true
silent_values (Action.var x) = true
silent_values (Action.const v) = true
silent_values (Action.assign x a) = silent_values a
silent_values (Action.seq a b) = silent_values a && silent_values b
silent_values (Action.bind x a b) = silent_values a && silent_values b
silent_values (Action.cond c a b) = silent_values c && silent_values a && silent_values b
silent_values (Action.read0 r) = true
silent_values (Action.read1 r) = true
silent_values (Action.write0 r a) = is_silent a
silent_values (Action.write1 r a) = is_silent a
silent_values (Action.unop f a) = silent_values a
silent_values (Action.binop f a b) = silent_values a && silent_values b

-- A register may have been written at port 1 exactly if the accesses say so.
abbrev pub Agrees : Accesses → Histories → Type 0
Agrees acc h = (q : ℕ) → may (h q).hw1 ≡ acc.acc_wr1 q

may-join : (a b : Tribool) → may (join_tribools a b) ≡ (may a || may b)
may-join Tribool.t_true Tribool.t_true = refl
may-join Tribool.t_true Tribool.t_false = refl
may-join Tribool.t_true Tribool.t_unknown = refl
may-join Tribool.t_false Tribool.t_true = refl
may-join Tribool.t_false Tribool.t_false = refl
may-join Tribool.t_false Tribool.t_unknown = refl
may-join Tribool.t_unknown Tribool.t_true = refl
may-join Tribool.t_unknown Tribool.t_false = refl
may-join Tribool.t_unknown Tribool.t_unknown = refl

-- An action without accesses leaves what may have been written.
annotate-is_silent :
    (a : Action) (h : Histories) (acc : Accesses)
    → is_silent a ≡ true
    → Agrees acc h
    → Agrees acc (annotate h a)
unfolding annotate is_silent
annotate-is_silent Action.fail h acc e k = k
annotate-is_silent (Action.var x) h acc e k = k
annotate-is_silent (Action.const v) h acc e k = k
annotate-is_silent (Action.assign x a) h acc e k = annotate-is_silent a h acc e k
annotate-is_silent (Action.seq a b) h acc e k =
    let (ea, eb) = both (is_silent a) _ e in
    annotate-is_silent b (annotate h a) acc eb (annotate-is_silent a h acc ea k)
annotate-is_silent (Action.bind x a b) h acc e k =
    let (ea, eb) = both (is_silent a) _ e in
    annotate-is_silent b (annotate h a) acc eb (annotate-is_silent a h acc ea k)
annotate-is_silent (Action.cond c a b) h acc e k =
    let (eca, eb) = both _ (is_silent b) e in
    let (ec, ea) = both (is_silent c) _ eca in
    let before = annotate-is_silent c h acc ec k in
    λ q.
      may-join (annotate (annotate h c) a q).hw1 (annotate (annotate h c) b q).hw1
      ∙ rw
          (
            annotate-is_silent a (annotate h c) acc ea before q,
            annotate-is_silent b (annotate h c) acc eb before q,
          )
          (ground arith)
annotate-is_silent (Action.read0 r) h acc e k = cc
annotate-is_silent (Action.read1 r) h acc e k = cc
annotate-is_silent (Action.write0 r a) h acc e k = cc
annotate-is_silent (Action.write1 r a) h acc e k = cc
annotate-is_silent (Action.unop f a) h acc e k = annotate-is_silent a h acc e k
annotate-is_silent (Action.binop f a b) h acc e k =
    let (ea, eb) = both (is_silent a) _ e in
    annotate-is_silent b (annotate h a) acc eb (annotate-is_silent a h acc ea k)

event-Agrees :
    (h : Histories) (r : ℕ) (f : History → History) (acc : Accesses)
    → (may (f (h r)).hw1 ≡ may (h r).hw1)
    → Agrees acc h
    → Agrees acc (update_map h r f)
event-Agrees h r f acc same k q = elim (cases_eq q r) [
  | inl (e, t) ↦ rw t (same ∙ sym (ap (λ i. may (h i).hw1) e) ∙ k q)
  | inr t ↦ rw t (k q)
]

write1-Agrees :
    (h : Histories) (r : ℕ) (acc : Accesses)
    → Agrees acc h
    → Agrees (record acc { acc_wr1 = update acc.acc_wr1 r true }) (update_map h r update_write1)
write1-Agrees h r acc k q = elim (cases_eq q r) [ inl (e, t) ↦ rw t refl | inr t ↦ rw t (k q) ]

pub annotate-Agrees :
    (a : Action) (h : Histories) (acc : Accesses)
    → silent_values a ≡ true
    → Agrees acc h
    → Agrees (find_conflicts acc a) (annotate h a)
unfolding annotate find_conflicts silent_values
annotate-Agrees Action.fail h acc e k = k
annotate-Agrees (Action.var x) h acc e k = k
annotate-Agrees (Action.const v) h acc e k = k
annotate-Agrees (Action.assign x a) h acc e k = annotate-Agrees a h acc e k
annotate-Agrees (Action.seq a b) h acc e k =
    let (ea, eb) = both (silent_values a) _ e in
    annotate-Agrees b (annotate h a) (find_conflicts acc a) eb (annotate-Agrees a h acc ea k)
annotate-Agrees (Action.bind x a b) h acc e k =
    let (ea, eb) = both (silent_values a) _ e in
    annotate-Agrees b (annotate h a) (find_conflicts acc a) eb (annotate-Agrees a h acc ea k)
annotate-Agrees (Action.cond c a b) h acc e k =
    let (eca, eb) = both _ (silent_values b) e in
    let (ec, ea) = both (silent_values c) _ eca in
    let before = annotate-Agrees c h acc ec k in
    λ q.
      may-join (annotate (annotate h c) a q).hw1 (annotate (annotate h c) b q).hw1
      ∙ rw
          (
            annotate-Agrees a (annotate h c) (find_conflicts acc c) ea before q,
            annotate-Agrees b (annotate h c) (find_conflicts acc c) eb before q,
          )
          refl
annotate-Agrees (Action.read0 r) h acc e k = event-Agrees h r update_read0 acc refl k
annotate-Agrees (Action.read1 r) h acc e k = event-Agrees h r update_read1 acc refl k
annotate-Agrees (Action.write0 r a) h acc e k =
    event-Agrees (annotate h a) r update_write0 acc refl (annotate-is_silent a h acc e k)
annotate-Agrees (Action.write1 r a) h acc e k =
    write1-Agrees (annotate h a) r acc (annotate-is_silent a h acc e k)
annotate-Agrees (Action.unop f a) h acc e k = annotate-Agrees a h acc e k
annotate-Agrees (Action.binop f a b) h acc e k =
    let (ea, eb) = both (silent_values a) _ e in
    annotate-Agrees b (annotate h a) (find_conflicts acc a) eb (annotate-Agrees a h acc ea k)
