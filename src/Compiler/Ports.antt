-- ===== src/Compiler/Ports.antt =====
-- The kinds that the compiler gives to registers have the member functions that the rules call.
use koika.Prelude.{◌&&◌, ℕ, Bool, true, false, List, ◌≡◌, refl, All, All-append}
use mathlib.Core.Path.{subst}
use koika.Registers.Rule.{update}
use koika.Registers.Refine.{Kind, has_port_read0, has_port_read1, has_port_write1, WellPorted}
use koika.Registers.Refine.Simulation.{at_update₂}
use koika.Compiler.History.{
  History, may, must, RegisterKind, compute_register_kind, update_read0, update_read1,
  update_write1,
}
use koika.Compiler.Action.{
  Action, Histories, empty_history_map, append_history_maps, rule_histories, meaning,
}
use koika.Compiler.Access.{updated-Below}
use koika.Compiler.Annotated.{
  erase, erase-rule_code, both, declared, accepted, Annotated, Annotated→BelowMap,
  rule_code-Annotated,
}
use koika.Compiler.Below.{
  BelowMap, BelowMap-trans, Below-refl, append_r-Below, read0-BelowMap, read1-BelowMap,
  write0-BelowMap, join_l-BelowMap, join_r-BelowMap,
}
use koika.Compiler.Cycle.{accepted_schedule}
use koika.Compiler.Code.{Code, is_value, rule_code}
use koika.Compiler.Kinds.{kind_by-read0, kind_by-read1, kind_by-write1, schedule_histories-Below}
use koika.Compiler.Order.{ordered}
use koika.Compiler.Schedule.{Scheduler, schedule_histories, register_kinds, rules_of}
use koika.Compiler.Skip.{absent}
use koika.Compiler.Tracked.{set_kind}

-- A register of the kind `value` needs no set; here it stands with the largest.
with_ports :
    (port : Kind → Bool) (k : RegisterKind)
    → port Kind.ehr ≡ true
    → (is_value k ≡ false → port (set_kind k) ≡ true)
    → port (set_kind k) ≡ true
with_ports port RegisterKind.value e f = e
with_ports port RegisterKind.wire e f = f refl
with_ports port RegisterKind.register e f = f refl
with_ports port RegisterKind.ehr e f = f refl

module _ (registers : List ℕ) (whole : Histories) where
  abbrev kind : ℕ → Kind
  kind r = set_kind (compute_register_kind (whole r))

  -- What a rule may have written at port 1 is in the histories.
  abbrev Covers : Histories → (ℕ → Bool) → Type 0
  Covers h written = (r : ℕ) → written r ≡ true → may (h r).hw1 ≡ true

  abbrev kinds : ℕ → RegisterKind
  kinds r = compute_register_kind (whole r)

  Covers-BelowMap :
      {h g : Histories} {written : ℕ → Bool} → BelowMap h g → Covers h written → Covers g written
  Covers-BelowMap b m q e = (b q).w1 (m q e)

  code-WellPorted :
      (final : Histories) (c : Code) (h : Histories) (written : ℕ → Bool)
      → BelowMap final whole
      → Annotated registers kinds final h c
      → Covers h written
      → WellPorted kind written (erase c)
  unfolding erase
  code-WellPorted final Code.commit h written b w m = tt
  code-WellPorted final (Code.fail h') h written b w m = tt
  code-WellPorted final (Code.rd0 h' r k) h written b w m =
      let covered = Annotated→BelowMap registers kinds final (k 0) _ (w.1 0) in
      let used = (b r).r0 ((updated-Below h' r update_read0 covered).r0 refl) in
      (
        with_ports has_port_read0 (kinds r) refl (λ nv.
            kind_by-read0 (must (whole r).hcf) _ (may (whole r).hr1) (may (whole r).hw1) nv used),
        λ v.
            code-WellPorted final (k v) _ written b (w.1 v)
              (Covers-BelowMap (BelowMap-trans w.0 (read0-BelowMap h' r)) m),
      )
  code-WellPorted final (Code.rd1 h' r k) h written b w m =
      let covered = Annotated→BelowMap registers kinds final (k 0) _ (w.2 0) in
      let used = (b r).r1 ((updated-Below h' r update_read1 covered).r1 refl) in
      (
        with_ports has_port_read1 (kinds r) refl (λ nv.
            kind_by-read1 (must (whole r).hcf) (may (whole r).hr0) _ (may (whole r).hw1) nv used),
        absent (written r) (may (h' r).hw1) (λ e. (w.0 r).w1 (m r e)) w.1,
        λ v.
            code-WellPorted final (k v) _ written b (w.2 v)
              (Covers-BelowMap (BelowMap-trans w.0 (read1-BelowMap h' r)) m),
      )
  code-WellPorted final (Code.wr0 h' r v k) h written b w m =
      code-WellPorted final k _ written b w.1
        (Covers-BelowMap (BelowMap-trans w.0 (write0-BelowMap h' r)) m)
  code-WellPorted final (Code.wr1 h' r v k) h written b w m =
      let covered = Annotated→BelowMap registers kinds final k _ w.1 in
      let used = (b r).w1 ((updated-Below h' r update_write1 covered).w1 refl) in
      (
        with_ports has_port_write1 (kinds r) refl (λ nv.
            kind_by-write1 (must (whole r).hcf) (may (whole r).hr0) (may (whole r).hr1) _ nv used),
        code-WellPorted final k _ (update written r true) b w.1 (
            at_update₂ {A = History} {B = Bool} (λ j g u. u ≡ true → may g.hw1 ≡ true) r
              (λ q e. (w.0 q).w1 (m q e)) (λ e. refl)),
      )

  rule-WellPorted :
      (a : Action) (H : Histories)
      → accepted registers kinds a empty_history_map ≡ true
      → BelowMap (append_history_maps H (rule_histories a)) whole
      → WellPorted kind (λ r. false) (meaning a)
  rule-WellPorted a H e b = subst (WellPorted kind (λ r. false)) (erase-rule_code a) (
      code-WellPorted (rule_histories a) (rule_code a) empty_history_map (λ r. false)
        (BelowMap-trans (λ q. append_r-Below (H q) (rule_histories a q)) b)
        (rule_code-Annotated registers kinds a e) (λ r never. cc))

  schedule-WellPorted :
      (sch : Scheduler) (H : Histories)
      → accepted_schedule registers kinds sch ≡ true
      → BelowMap (schedule_histories H sch) whole
      → All (WellPorted kind (λ r. false)) (rules_of sch)
  unfolding rules_of schedule_histories accepted_schedule
  schedule-WellPorted Scheduler.done H e b = tt
  schedule-WellPorted (Scheduler.cons a sch) H e b =
      let (da, es) = both _ (accepted_schedule registers kinds sch) e in
      let (fine, ea) = both (declared registers a && ordered a) _ da in
      let (d, o) = both (declared registers a) (ordered a) fine in
      let H₁ = append_history_maps H (rule_histories a) in
      (
        rule-WellPorted a H ea (BelowMap-trans (schedule_histories-Below sch H₁) b),
        schedule-WellPorted sch H₁ es b,
      )
  schedule-WellPorted (Scheduler.try a sch other) H e b =
      let (das, eo) = both _ (accepted_schedule registers kinds other) e in
      let (da, es) = both _ (accepted_schedule registers kinds sch) das in
      let (fine, ea) = both (declared registers a && ordered a) _ da in
      let (d, o) = both (declared registers a) (ordered a) fine in
      let H₁ = append_history_maps H (rule_histories a) in
      let s₁ = schedule_histories H₁ sch in
      let s₂ = schedule_histories H₁ other in
      let b₁ = BelowMap-trans (join_l-BelowMap s₁ s₂) b in
      (
        rule-WellPorted a H ea (BelowMap-trans (schedule_histories-Below sch H₁) b₁),
        All-append (WellPorted kind (λ r. false)) (rules_of sch) (rules_of other)
            (schedule-WellPorted sch H₁ es b₁)
            (schedule-WellPorted other H₁ eo (BelowMap-trans (join_r-BelowMap s₁ s₂) b)),
      )

-- For a design in which every rule uses only declared registers, has no second operand that
-- assigns a variable or mentions the one that the result goes to, reads no register at port 1
-- after a possible write at port 1, and fails without a reset only where it cannot have marked a
-- read-write set: the rules call only member functions that the read-write sets of their
-- registers have, by the kinds that the analysis gives them, and read no register at port 1 after
-- writing it there. A register of the kind `value` counts as one with all of them.
pub rules_of-WellPorted :
    (registers : List ℕ) (sch : Scheduler)
    → accepted_schedule registers (register_kinds sch) sch ≡ true
    → All (WellPorted (λ r. set_kind (register_kinds sch r)) (λ r. false)) (rules_of sch)
rules_of-WellPorted registers sch e =
    schedule-WellPorted registers (schedule_histories empty_history_map sch) sch empty_history_map e
      (λ q. Below-refl (schedule_histories empty_history_map sch q))
