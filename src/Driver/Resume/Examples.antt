-- ===== src/Driver/Resume/Examples.antt =====
-- The counter of examples/save_restore.v, saved after 5 cycles and resumed for 3.
use koika.Prelude.{ℕ, ◌+◌, ◌%◌, ◌^◌, ◌≡◌, refl, ap, arith, none, some, List, [], ◌∷◌, codes}
use koika.Driver.Resume.{Module, resume}
use koika.Driver.Resume.Alike.{IsModule}
use koika.Driver.Resume.Laws.{resume-resume}
use koika.Vcd.State.{Fits}

abbrev first : List ℕ → ℕ
first [] = 0
first (v ∷ vs) = v

abbrev counter : Module ℕ
counter = record {
  regs = record { name = codes "counter"; width = 32 } ∷ [];
  snapshot = λ n. n ∷ [];
  set_state = λ n vs. first vs;
  design = record { rules = λ n. ((n + 1) % 2 ^ 32, none) };
  init = 0;
}

put_back : (n : ℕ) (vs : List ℕ) → Fits counter.regs vs → first vs ∷ [] ≡ vs
put_back n [] f = absurd f
put_back n (v ∷ []) f = refl
put_back n (v ∷ w ∷ vs) f = absurd f.1

counter-IsModule : IsModule counter
counter-IsModule = record {
  registers = (
    omega arith,
    omega arith,
    (refl, (refl, (refl, (refl, (refl, (refl, (refl, tt))))))),
    tt,
    tt,
  );
  init_fits = (omega arith, tt);
  snapshot-set_state = put_back;
  rules_fit = λ a f. (omega arith, tt);
  rules_same = λ a b e. (ap (λ vs. (first vs + 1) % 2 ^ 32 ∷ []) e, refl);
}

resume-resume_example :
    (saved : List (List ℕ)) × (last : List (List ℕ)) × (resume counter
        (codes "yesterday")
        []
        9
        (some 5)
        []
      ≡ some saved)
    × (resume counter (codes "today") [] 8 (some 3) saved ≡ some last)
    × (resume counter (codes "today") [] 7 (some (5 + 3)) [] ≡ some last)
resume-resume_example =
    resume-resume counter counter-IsModule (codes "today") (codes "yesterday") [] 9 8 7 5 3 []
      (λ s e j h. refl)
