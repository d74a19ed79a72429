-- ===== src/Compiler/History.antt =====
-- What is known of a register at a point of a rule or of a schedule: `tribool`, `register_history` and
-- their operations in coq/TypedSyntaxFunctions.v.
use koika.Prelude.{Bool, true, false}

pub data Tribool : Type 0 where
  t_true t_false t_unknown : Tribool

abbrev pub join_tribools : Tribool → Tribool → Tribool
join_tribools Tribool.t_true Tribool.t_true = Tribool.t_true
join_tribools Tribool.t_false Tribool.t_false = Tribool.t_false
join_tribools a b = Tribool.t_unknown

abbrev pub tandb : Tribool → Tribool → Tribool
tandb Tribool.t_false b = Tribool.t_false
tandb a Tribool.t_false = Tribool.t_false
tandb Tribool.t_true Tribool.t_true = Tribool.t_true
tandb a b = Tribool.t_unknown

abbrev pub tnegb : Tribool → Tribool
tnegb Tribool.t_false = Tribool.t_true
tnegb Tribool.t_true = Tribool.t_false
tnegb Tribool.t_unknown = Tribool.t_unknown

abbrev pub torb : Tribool → Tribool → Tribool
torb Tribool.t_true b = Tribool.t_true
torb a Tribool.t_true = Tribool.t_true
torb Tribool.t_false Tribool.t_false = Tribool.t_false
torb a b = Tribool.t_unknown

abbrev pub timplb : Tribool → Tribool → Tribool
timplb a b = torb (tnegb a) b

-- `<> TFalse`
abbrev pub may : Tribool → Bool
may Tribool.t_true = true
may Tribool.t_false = false
may Tribool.t_unknown = true

-- `= TTrue`
abbrev pub must : Tribool → Bool
must Tribool.t_true = true
must Tribool.t_false = false
must Tribool.t_unknown = false

-- Whether a register has been read and written at each port, and whether that is without conflicts.
pub record History : Type 0 where
  pub hr0 : Tribool
  pub hr1 : Tribool
  pub hw0 : Tribool
  pub hw1 : Tribool
  pub hcf : Tribool

abbrev pub empty_history : History
empty_history = record {
  hr0 = Tribool.t_false;
  hr1 = Tribool.t_false;
  hw0 = Tribool.t_false;
  hw1 = Tribool.t_false;
  hcf = Tribool.t_true;
}

abbrev pub join_histories : History → History → History
join_histories a b = record {
  hr0 = join_tribools a.hr0 b.hr0;
  hr1 = join_tribools a.hr1 b.hr1;
  hw0 = join_tribools a.hw0 b.hw0;
  hw1 = join_tribools a.hw1 b.hw1;
  hcf = join_tribools a.hcf b.hcf;
}

-- `update_history`, for each of the four events; `update_cf` stands in `hcf`.
abbrev pub update_read0 : History → History
update_read0 l = record l { hr0 = Tribool.t_true; hcf = tandb l.hcf Tribool.t_true }

abbrev pub update_read1 : History → History
update_read1 l = record l { hr1 = Tribool.t_true; hcf = tandb l.hcf Tribool.t_true }

abbrev pub update_write0 : History → History
update_write0 l = record l {
  hw0 = Tribool.t_true;
  hcf = tandb l.hcf (tandb (tandb (tnegb l.hr1) (tnegb l.hw0)) (tnegb l.hw1));
}

abbrev pub update_write1 : History → History
update_write1 l = record l { hw1 = Tribool.t_true; hcf = tandb l.hcf (tnegb l.hw1) }

abbrev pub append_tribools : Tribool → Tribool → Tribool
append_tribools a b = join_tribools a (torb a b)

-- `append_cf`: whether a rule with history `l` meets no conflict after a schedule with history `L`.
abbrev pub append_cf : History → History → Tribool
append_cf L l =
    tandb
      (tandb
        (tandb (tandb Tribool.t_true (timplb l.hr0 (tandb (tnegb L.hw0) (tnegb L.hw1))))
          (timplb l.hw0 (tandb (tandb (tnegb L.hr1) (tnegb L.hw0)) (tnegb L.hw1))))
        (timplb l.hr1 (tnegb L.hw1)))
      (timplb l.hw1 (tnegb L.hw1))

abbrev pub append_histories : History → History → History
append_histories L l = record {
  hr0 = append_tribools L.hr0 l.hr0;
  hr1 = append_tribools L.hr1 l.hr1;
  hw0 = append_tribools L.hw0 l.hw0;
  hw1 = append_tribools L.hw1 l.hw1;
  hcf = tandb (tandb L.hcf l.hcf) (append_cf L l);
}

-- `register_kind` and `compute_register_kind`.
pub data RegisterKind : Type 0 where
  value wire register ehr : RegisterKind

abbrev pub kind_by : Bool → Bool → Bool → Bool → RegisterKind
kind_by true r0 r1 w1 = RegisterKind.value
kind_by false r0 false false = RegisterKind.register
kind_by false false r1 false = RegisterKind.wire
kind_by false r0 r1 w1 = RegisterKind.ehr

abbrev pub compute_register_kind : History → RegisterKind
compute_register_kind h = kind_by (must h.hcf) (may h.hr0) (may h.hr1) (may h.hw1)
