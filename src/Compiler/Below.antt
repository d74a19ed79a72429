-- ===== src/Compiler/Below.antt =====
-- What an analysis keeps as it goes on: a history covers those before it, for the functions on
-- histories of coq/TypedSyntaxFunctions.v.
use koika.Prelude.{ℕ, true, false, ◌≡◌, refl, inl, inr, cases_eq}
use koika.Compiler.History.{
  Tribool, History, join_tribools, tandb, tnegb, torb, timplb, may, must, join_histories,
  update_read0, update_read1, update_write0, update_write1, append_cf, append_histories,
}
use koika.Compiler.Action.{Action, Histories, join_history_maps, annotate, update_map}

-- `g` reports each access that `h` reports, and no conflict only if `h` reports none.
pub record Below (h g : History) : Type 0 where
  pub r0 : may h.hr0 ≡ true → may g.hr0 ≡ true
  pub r1 : may h.hr1 ≡ true → may g.hr1 ≡ true
  pub w0 : may h.hw0 ≡ true → may g.hw0 ≡ true
  pub w1 : may h.hw1 ≡ true → may g.hw1 ≡ true
  pub cf : must g.hcf ≡ true → must h.hcf ≡ true

pub Below-refl : (h : History) → Below h h
Below-refl h = record { r0 = λ e. e; r1 = λ e. e; w0 = λ e. e; w1 = λ e. e; cf = λ e. e }

pub Below-trans : {f g h : History} → Below f g → Below g h → Below f h
Below-trans b c = record {
  r0 = λ e. c.r0 (b.r0 e);
  r1 = λ e. c.r1 (b.r1 e);
  w0 = λ e. c.w0 (b.w0 e);
  w1 = λ e. c.w1 (b.w1 e);
  cf = λ e. b.cf (c.cf e);
}

pub must-tandb : (a b : Tribool) → must (tandb a b) ≡ true → (must a ≡ true) × (must b ≡ true)
must-tandb Tribool.t_true Tribool.t_true e = (refl, refl)
must-tandb Tribool.t_true Tribool.t_false e = cc
must-tandb Tribool.t_true Tribool.t_unknown e = cc
must-tandb Tribool.t_false b e = cc
must-tandb Tribool.t_unknown Tribool.t_true e = cc
must-tandb Tribool.t_unknown Tribool.t_false e = cc
must-tandb Tribool.t_unknown Tribool.t_unknown e = cc

pub must-tnegb : (a : Tribool) → must (tnegb a) ≡ true → may a ≡ false
must-tnegb Tribool.t_true e = cc
must-tnegb Tribool.t_false e = refl
must-tnegb Tribool.t_unknown e = cc

pub must-timplb : (a b : Tribool) → must (timplb a b) ≡ true → may a ≡ true → must b ≡ true
must-timplb Tribool.t_false b e p = cc
must-timplb Tribool.t_true Tribool.t_true e p = refl
must-timplb Tribool.t_true Tribool.t_false e p = cc
must-timplb Tribool.t_true Tribool.t_unknown e p = cc
must-timplb Tribool.t_unknown Tribool.t_true e p = refl
must-timplb Tribool.t_unknown Tribool.t_false e p = cc
must-timplb Tribool.t_unknown Tribool.t_unknown e p = cc

may-join_l : (a b : Tribool) → may a ≡ true → may (join_tribools a b) ≡ true
may-join_l Tribool.t_true Tribool.t_true e = refl
may-join_l Tribool.t_true Tribool.t_false e = refl
may-join_l Tribool.t_true Tribool.t_unknown e = refl
may-join_l Tribool.t_false b e = cc
may-join_l Tribool.t_unknown Tribool.t_true e = refl
may-join_l Tribool.t_unknown Tribool.t_false e = refl
may-join_l Tribool.t_unknown Tribool.t_unknown e = refl

may-join_r : (a b : Tribool) → may b ≡ true → may (join_tribools a b) ≡ true
may-join_r a Tribool.t_false e = cc
may-join_r Tribool.t_true Tribool.t_true e = refl
may-join_r Tribool.t_true Tribool.t_unknown e = refl
may-join_r Tribool.t_false Tribool.t_true e = refl
may-join_r Tribool.t_false Tribool.t_unknown e = refl
may-join_r Tribool.t_unknown Tribool.t_true e = refl
may-join_r Tribool.t_unknown Tribool.t_unknown e = refl

may-torb_r : (a b : Tribool) → may b ≡ true → may (torb a b) ≡ true
may-torb_r a Tribool.t_false e = cc
may-torb_r Tribool.t_true b e = refl
may-torb_r Tribool.t_false Tribool.t_true e = refl
may-torb_r Tribool.t_false Tribool.t_unknown e = refl
may-torb_r Tribool.t_unknown Tribool.t_true e = refl
may-torb_r Tribool.t_unknown Tribool.t_unknown e = refl

must-join : (a b : Tribool) → must (join_tribools a b) ≡ true → (must a ≡ true) × (must b ≡ true)
must-join Tribool.t_true Tribool.t_true e = (refl, refl)
must-join Tribool.t_true Tribool.t_false e = cc
must-join Tribool.t_true Tribool.t_unknown e = cc
must-join Tribool.t_false Tribool.t_true e = cc
must-join Tribool.t_false Tribool.t_false e = cc
must-join Tribool.t_false Tribool.t_unknown e = cc
must-join Tribool.t_unknown Tribool.t_true e = cc
must-join Tribool.t_unknown Tribool.t_false e = cc
must-join Tribool.t_unknown Tribool.t_unknown e = cc

-- One more event.
module _ (h : History) where
  read0-Below : Below h (update_read0 h)
  read0-Below = record {
    r0 = λ e. refl;
    r1 = λ e. e;
    w0 = λ e. e;
    w1 = λ e. e;
    cf = λ e. (must-tandb h.hcf Tribool.t_true e).0;
  }

  read1-Below : Below h (update_read1 h)
  read1-Below = record {
    r0 = λ e. e;
    r1 = λ e. refl;
    w0 = λ e. e;
    w1 = λ e. e;
    cf = λ e. (must-tandb h.hcf Tribool.t_true e).0;
  }

  write0-Below : Below h (update_write0 h)
  write0-Below = record {
    r0 = λ e. e;
    r1 = λ e. e;
    w0 = λ e. refl;
    w1 = λ e. e;
    cf = λ e. (must-tandb h.hcf _ e).0;
  }

  write1-Below : Below h (update_write1 h)
  write1-Below = record {
    r0 = λ e. e;
    r1 = λ e. e;
    w0 = λ e. e;
    w1 = λ e. refl;
    cf = λ e. (must-tandb h.hcf _ e).0;
  }

-- A join and a sequence cover both of their parts.
module _ (h g : History) where
  join_l-Below : Below h (join_histories h g)
  join_l-Below = record {
    r0 = may-join_l h.hr0 g.hr0;
    r1 = may-join_l h.hr1 g.hr1;
    w0 = may-join_l h.hw0 g.hw0;
    w1 = may-join_l h.hw1 g.hw1;
    cf = λ e. (must-join h.hcf g.hcf e).0;
  }

  join_r-Below : Below g (join_histories h g)
  join_r-Below = record {
    r0 = may-join_r h.hr0 g.hr0;
    r1 = may-join_r h.hr1 g.hr1;
    w0 = may-join_r h.hw0 g.hw0;
    w1 = may-join_r h.hw1 g.hw1;
    cf = λ e. (must-join h.hcf g.hcf e).1;
  }

  pub append_l-Below : Below h (append_histories h g)
  append_l-Below = record {
    r0 = may-join_l h.hr0 _;
    r1 = may-join_l h.hr1 _;
    w0 = may-join_l h.hw0 _;
    w1 = may-join_l h.hw1 _;
    cf = λ e. (must-tandb h.hcf g.hcf (must-tandb (tandb h.hcf g.hcf) (append_cf h g) e).0).0;
  }

  pub append_r-Below : Below g (append_histories h g)
  append_r-Below = record {
    r0 = λ e. may-join_r h.hr0 _ (may-torb_r h.hr0 g.hr0 e);
    r1 = λ e. may-join_r h.hr1 _ (may-torb_r h.hr1 g.hr1 e);
    w0 = λ e. may-join_r h.hw0 _ (may-torb_r h.hw0 g.hw0 e);
    w1 = λ e. may-join_r h.hw1 _ (may-torb_r h.hw1 g.hw1 e);
    cf = λ e. (must-tandb h.hcf g.hcf (must-tandb (tandb h.hcf g.hcf) (append_cf h g) e).0).1;
  }

-- The same for maps.
abbrev pub BelowMap : Histories → Histories → Type 0
BelowMap h g = (q : ℕ) → Below (h q) (g q)

pub BelowMap-trans : {f g h : Histories} → BelowMap f g → BelowMap g h → BelowMap f h
BelowMap-trans b c q = Below-trans (b q) (c q)

update_map-Below :
    (h : Histories) (r : ℕ) (f : History → History)
    → Below (h r) (f (h r))
    → BelowMap h (update_map h r f)
update_map-Below h r f b q = elim (cases_eq q r) [
  | inl (e, same) ↦ rw (same, e) b
  | inr other ↦ rw other (Below-refl (h q))
]

pub read0-BelowMap : (h : Histories) (r : ℕ) → BelowMap h (update_map h r update_read0)
read0-BelowMap h r = update_map-Below h r update_read0 (read0-Below (h r))

pub read1-BelowMap : (h : Histories) (r : ℕ) → BelowMap h (update_map h r update_read1)
read1-BelowMap h r = update_map-Below h r update_read1 (read1-Below (h r))

pub write0-BelowMap : (h : Histories) (r : ℕ) → BelowMap h (update_map h r update_write0)
write0-BelowMap h r = update_map-Below h r update_write0 (write0-Below (h r))

pub write1-BelowMap : (h : Histories) (r : ℕ) → BelowMap h (update_map h r update_write1)
write1-BelowMap h r = update_map-Below h r update_write1 (write1-Below (h r))

pub join_l-BelowMap : (h g : Histories) → BelowMap h (join_history_maps h g)
join_l-BelowMap h g q = join_l-Below (h q) (g q)

pub join_r-BelowMap : (h g : Histories) → BelowMap g (join_history_maps h g)
join_r-BelowMap h g q = join_r-Below (h q) (g q)

-- The history after an action covers the one before it.
pub annotate-Below : (a : Action) (h : Histories) → BelowMap h (annotate h a)
unfolding annotate
annotate-Below Action.fail h = λ q. Below-refl (h q)
annotate-Below (Action.var x) h = λ q. Below-refl (h q)
annotate-Below (Action.const v) h = λ q. Below-refl (h q)
annotate-Below (Action.assign x a) h = annotate-Below a h
annotate-Below (Action.seq a b) h =
    BelowMap-trans (annotate-Below a h) (annotate-Below b (annotate h a))
annotate-Below (Action.bind x a b) h =
    BelowMap-trans (annotate-Below a h) (annotate-Below b (annotate h a))
annotate-Below (Action.cond c a b) h = BelowMap-trans (annotate-Below c h) (
    BelowMap-trans (annotate-Below a (annotate h c))
      (join_l-BelowMap (annotate (annotate h c) a) (annotate (annotate h c) b)))
annotate-Below (Action.read0 r) h = read0-BelowMap h r
annotate-Below (Action.read1 r) h = read1-BelowMap h r
annotate-Below (Action.write0 r a) h =
    BelowMap-trans (annotate-Below a h) (write0-BelowMap (annotate h a) r)
annotate-Below (Action.write1 r a) h =
    BelowMap-trans (annotate-Below a h) (write1-BelowMap (annotate h a) r)
annotate-Below (Action.unop f a) h = annotate-Below a h
annotate-Below (Action.binop f a b) h =
    BelowMap-trans (annotate-Below a h) (annotate-Below b (annotate h a))
