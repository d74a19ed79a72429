-- ===== src/Compiler/Kinds.antt =====
-- The kinds of registers and the histories of schedules: what `compute_register_kind` and
-- `compute_scheduler_register_histories` of coq/TypedSyntaxFunctions.v give.
use koika.Prelude.{Bool, true, false, List, ◌++◌, ◌≡◌, refl, sym, ◌∙◌}
use koika.Registers.Spec.{Event, has_read1, has_write0, has_write1}
use koika.Registers.Refine.{has_port_read0, has_port_read1, has_port_write1}
use koika.Compiler.History.{History, append_histories, kind_by}
use koika.Compiler.Action.{Histories, append_history_maps, rule_histories}
use koika.Compiler.Code.{is_value}
use koika.Compiler.Below.{
  Below-refl, BelowMap, BelowMap-trans, append_l-Below, append_r-Below, join_l-BelowMap,
}
use koika.Compiler.Skip.{read1-skip, write0-skip, write1-skip}
use koika.Compiler.Schedule.{Scheduler, schedule_histories}
use koika.Compiler.Tracked.{Reports, set_kind}

-- The kind that a register gets has the ports that the schedule uses it at.
pub kind_by-read0 :
    (cf r0 r1 w1 : Bool)
    → is_value (kind_by cf r0 r1 w1) ≡ false
    → r0 ≡ true
    → has_port_read0 (set_kind (kind_by cf r0 r1 w1)) ≡ true
kind_by-read0 true r0 r1 w1 v e = cc
kind_by-read0 false false r1 w1 v e = cc
kind_by-read0 false true false false v e = refl
kind_by-read0 false true true false v e = refl
kind_by-read0 false true false true v e = refl
kind_by-read0 false true true true v e = refl

pub kind_by-read1 :
    (cf r0 r1 w1 : Bool)
    → is_value (kind_by cf r0 r1 w1) ≡ false
    → r1 ≡ true
    → has_port_read1 (set_kind (kind_by cf r0 r1 w1)) ≡ true
kind_by-read1 true r0 r1 w1 v e = cc
kind_by-read1 false r0 false w1 v e = cc
kind_by-read1 false false true false v e = refl
kind_by-read1 false true true false v e = refl
kind_by-read1 false false true true v e = refl
kind_by-read1 false true true true v e = refl

pub kind_by-write1 :
    (cf r0 r1 w1 : Bool)
    → is_value (kind_by cf r0 r1 w1) ≡ false
    → w1 ≡ true
    → has_port_write1 (set_kind (kind_by cf r0 r1 w1)) ≡ true
kind_by-write1 true r0 r1 w1 v e = cc
kind_by-write1 false r0 r1 false v e = cc
kind_by-write1 false false false true v e = refl
kind_by-write1 false true false true v e = refl
kind_by-write1 false false true true v e = refl
kind_by-write1 false true true true v e = refl

pub kind_by-value : (cf r0 r1 w1 : Bool) → is_value (kind_by cf r0 r1 w1) ≡ true → cf ≡ true
kind_by-value true r0 r1 w1 v = refl
kind_by-value false false false false v = cc
kind_by-value false true false false v = cc
kind_by-value false false true false v = cc
kind_by-value false true true false v = cc
kind_by-value false false false true v = cc
kind_by-value false true false true v = cc
kind_by-value false false true true v = cc
kind_by-value false true true true v = cc

-- The histories of a schedule cover those of its start.
pub schedule_histories-Below : (s : Scheduler) (H : Histories) → BelowMap H (schedule_histories H s)
unfolding schedule_histories
schedule_histories-Below Scheduler.done H = λ q. Below-refl (H q)
schedule_histories-Below (Scheduler.cons a s) H =
    BelowMap-trans (λ q. append_l-Below (H q) (rule_histories a q))
      (schedule_histories-Below s (append_history_maps H (rule_histories a)))
schedule_histories-Below (Scheduler.try a s t) H =
    BelowMap-trans (λ q. append_l-Below (H q) (rule_histories a q))
      (BelowMap-trans (schedule_histories-Below s (append_history_maps H (rule_histories a)))
        (join_l-BelowMap _ _))

-- The reports on a rule that commits join those on the schedule.
pub append-Reports :
    (H F : History) (L l : List Event)
    → Reports H L
    → Reports F l
    → Reports (append_histories H F) (l ++ L)
append-Reports H F L l rL rl = record {
  read1 = λ e.
      either (has_read1 l) (read1-skip L l) e rl.read1 rL.read1 (append_r-Below H F).r1
        (append_l-Below H F).r1;
  write0 = λ e.
      either (has_write0 l) (write0-skip L l) e rl.write0 rL.write0 (append_r-Below H F).w0
        (append_l-Below H F).w0;
  write1 = λ e.
      either (has_write1 l) (write1-skip L l) e rl.write1 rL.write1 (append_r-Below H F).w1
        (append_l-Below H F).w1;
}
  where
    either :
        (b : Bool) {c d f h g : Bool}
        → (b ≡ false → c ≡ d)
        → c ≡ true
        → (b ≡ true → f ≡ true)
        → (d ≡ true → h ≡ true)
        → (f ≡ true → g ≡ true)
        → (h ≡ true → g ≡ true)
        → g ≡ true
    either true skip e own before from_own from_before = from_own (own refl)
    either false skip e own before from_own from_before = from_before (before (sym (skip refl) ∙ e))
