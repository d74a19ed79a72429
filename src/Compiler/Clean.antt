-- ===== src/Compiler/Clean.antt =====
-- Where the analysis of coq/TypedSyntaxFunctions.v reports no conflict, no access meets one.
use koika.Prelude.{true, false, ◌≡◌}
use koika.Compiler.History.{
  Tribool, History, may, must, tandb, tnegb, timplb, append_cf, append_histories, update_write0,
  update_write1,
}
use koika.Compiler.Below.{must-tandb, must-tnegb, must-timplb}

module _ (H F : History) (e : must (append_histories H F).hcf ≡ true) where
  pub rule_clean : must F.hcf ≡ true
  rule_clean = (must-tandb H.hcf F.hcf (must-tandb (tandb H.hcf F.hcf) (append_cf H F) e).0).1

  cf : must (append_cf H F) ≡ true
  cf = (must-tandb (tandb H.hcf F.hcf) (append_cf H F) e).1

  pub clean_read0 : may F.hr0 ≡ true → (may H.hw0 ≡ false) × (may H.hw1 ≡ false)
  clean_read0 p =
      let a = must-tandb _ (timplb F.hw1 (tnegb H.hw1)) cf in
      let b = must-tandb _ (timplb F.hr1 (tnegb H.hw1)) a.0 in
      let c =
        must-tandb (tandb Tribool.t_true (timplb F.hr0 (tandb (tnegb H.hw0) (tnegb H.hw1)))) _
          b.0 in
      let d = must-tandb Tribool.t_true (timplb F.hr0 (tandb (tnegb H.hw0) (tnegb H.hw1))) c.0 in
      let both_writes = must-tandb (tnegb H.hw0) (tnegb H.hw1) (must-timplb F.hr0 _ d.1 p) in
      (must-tnegb H.hw0 both_writes.0, must-tnegb H.hw1 both_writes.1)

  pub clean_write0 :
      may F.hw0 ≡ true → (may H.hr1 ≡ false) × (may H.hw0 ≡ false) × (may H.hw1 ≡ false)
  clean_write0 p =
      let a = must-tandb _ (timplb F.hw1 (tnegb H.hw1)) cf in
      let b = must-tandb _ (timplb F.hr1 (tnegb H.hw1)) a.0 in
      let c =
        must-tandb (tandb Tribool.t_true (timplb F.hr0 (tandb (tnegb H.hw0) (tnegb H.hw1)))) _
          b.0 in
      let d =
        must-tandb (tandb (tnegb H.hr1) (tnegb H.hw0)) (tnegb H.hw1) (must-timplb F.hw0 _ c.1 p) in
      let f = must-tandb (tnegb H.hr1) (tnegb H.hw0) d.0 in
      (must-tnegb H.hr1 f.0, must-tnegb H.hw0 f.1, must-tnegb H.hw1 d.1)

  pub clean_read1 : may F.hr1 ≡ true → may H.hw1 ≡ false
  clean_read1 p =
      let a = must-tandb _ (timplb F.hw1 (tnegb H.hw1)) cf in
      let b = must-tandb _ (timplb F.hr1 (tnegb H.hw1)) a.0 in
      must-tnegb H.hw1 (must-timplb F.hr1 _ b.1 p)

  pub clean_write1 : may F.hw1 ≡ true → may H.hw1 ≡ false
  clean_write1 p =
      let a = must-tandb _ (timplb F.hw1 (tnegb H.hw1)) cf in
      must-tnegb H.hw1 (must-timplb F.hw1 _ a.1 p)

module _ (h : History) where
  pub update_write0_clean :
      must (update_write0 h).hcf ≡ true
      → (may h.hr1 ≡ false) × (may h.hw0 ≡ false) × (may h.hw1 ≡ false)
  update_write0_clean e =
      let a = must-tandb h.hcf _ e in
      let b = must-tandb (tandb (tnegb h.hr1) (tnegb h.hw0)) (tnegb h.hw1) a.1 in
      let c = must-tandb (tnegb h.hr1) (tnegb h.hw0) b.0 in
      (must-tnegb h.hr1 c.0, must-tnegb h.hw0 c.1, must-tnegb h.hw1 b.1)

  pub update_write1_clean : must (update_write1 h).hcf ≡ true → may h.hw1 ≡ false
  update_write1_clean e = must-tnegb h.hw1 (must-tandb h.hcf _ e).1
