-- ===== src/Compiler/Declared.antt =====
-- The analysis of coq/TypedSyntaxFunctions.v reports nothing of registers that a rule does not use.
use koika.Prelude.{ℕ, true, false, List, ◌≡◌, refl, ap, inl, inr, cases_eq}
use koika.Registers.Dynamic.Outside.{mem}
use koika.Compiler.History.{
  History, empty_history, update_read0, update_read1, update_write0, update_write1,
}
use koika.Compiler.Action.{
  Action, Histories, annotate, update_map, empty_history_map, rule_histories,
}
use koika.Compiler.Annotated.{both, declared}

module _ (registers : List ℕ) (q : ℕ) (out : mem q registers ≡ false) where
  elsewhere :
      (h : Histories) (r : ℕ) (f : History → History)
      → mem r registers ≡ true
      → h q ≡ empty_history
      → update_map h r f q ≡ empty_history
  elsewhere h r f used e = elim (cases_eq q r) [
    | inl (same, t) ↦ cc (ap (λ i. mem i registers) same)
    | inr t ↦ rw t e
  ]

  annotate-undeclared :
      (a : Action) (h : Histories)
      → declared registers a ≡ true
      → h q ≡ empty_history
      → annotate h a q ≡ empty_history
  unfolding annotate declared
  annotate-undeclared Action.fail h d e = e
  annotate-undeclared (Action.var x) h d e = e
  annotate-undeclared (Action.const v) h d e = e
  annotate-undeclared (Action.assign x a) h d e = annotate-undeclared a h d e
  annotate-undeclared (Action.seq a b) h d e =
      let (da, db) = both (declared registers a) _ d in
      annotate-undeclared b (annotate h a) db (annotate-undeclared a h da e)
  annotate-undeclared (Action.bind x a b) h d e =
      let (da, db) = both (declared registers a) _ d in
      annotate-undeclared b (annotate h a) db (annotate-undeclared a h da e)
  annotate-undeclared (Action.cond c a b) h d e =
      let (dca, db) = both _ (declared registers b) d in
      let (dc, da) = both (declared registers c) _ dca in
      let before = annotate-undeclared c h dc e in
      rw
        (
          annotate-undeclared a (annotate h c) da before,
          annotate-undeclared b (annotate h c) db before,
        )
        refl
  annotate-undeclared (Action.read0 r) h d e = elsewhere h r update_read0 d e
  annotate-undeclared (Action.read1 r) h d e = elsewhere h r update_read1 d e
  annotate-undeclared (Action.write0 r a) h d e =
      let (here, da) = both (mem r registers) _ d in
      elsewhere (annotate h a) r update_write0 here (annotate-undeclared a h da e)
  annotate-undeclared (Action.write1 r a) h d e =
      let (here, da) = both (mem r registers) _ d in
      elsewhere (annotate h a) r update_write1 here (annotate-undeclared a h da e)
  annotate-undeclared (Action.unop f a) h d e = annotate-undeclared a h d e
  annotate-undeclared (Action.binop f a b) h d e =
      let (da, db) = both (declared registers a) _ d in
      annotate-undeclared b (annotate h a) db (annotate-undeclared a h da e)

  pub rule_histories-undeclared :
      (a : Action) → declared registers a ≡ true → rule_histories a q ≡ empty_history
  rule_histories-undeclared a d = annotate-undeclared a empty_history_map d refl
