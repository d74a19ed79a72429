-- ===== src/Compiler/Tracked.antt =====
-- The logs while the code of a rule runs, and the events of the reference semantics: the registers of
-- the kind `value` have no read-write sets.
use koika.Prelude.{ℕ, true, false, List, ◌∷◌, ◌++◌, ◌≡◌, refl, sym, ◌∙◌}
use koika.Registers.{Access}
use koika.Registers.Rule.{Sim, Log, store, mark}
use koika.Registers.Spec.{Event, Events, has_read1, has_write0, has_write1, latest_write, cons}
use koika.Registers.Refine.{Kind, has_port_read1, summary, Fits}
use koika.Registers.Refine.Access.{summary-read0, read0-Fits, read1-Fits}
use koika.Registers.Refine.Simulation.{at_update, at_update₂}
use koika.Compiler.History.{
  History, may, RegisterKind, update_read0, update_read1, update_write0, update_write1,
}
use koika.Compiler.Action.{Histories, update_map}
use koika.Compiler.Code.{is_value, write_fast}
use koika.Compiler.Below.{Below, BelowMap}

-- A history reports every event of a list.
pub record Reports (h : History) (es : List Event) : Type 0 where
  pub read1 : has_read1 es ≡ true → may h.hr1 ≡ true
  pub write0 : has_write0 es ≡ true → may h.hw0 ≡ true
  pub write1 : has_write1 es ≡ true → may h.hw1 ≡ true

abbrev pub ReportsMap : Histories → Events → Type 0
ReportsMap h l = (q : ℕ) → Reports (h q) (l q)

pub Below-Reports : {h g : History} {es : List Event} → Below h g → Reports h es → Reports g es
Below-Reports b m = record {
  read1 = λ e. b.r1 (m.read1 e);
  write0 = λ e. b.w0 (m.write0 e);
  write1 = λ e. b.w1 (m.write1 e);
}

pub BelowMap-ReportsMap :
    {h g : Histories} {l : Events} → BelowMap h g → ReportsMap h l → ReportsMap g l
BelowMap-ReportsMap b m q = Below-Reports (b q) (m q)

module _ (h : Histories) (l : Events) (r : ℕ) where
  update-ReportsMap :
      (f : History → History) (e : Event)
      → Reports (f (h r)) (e ∷ l r)
      → ReportsMap h l
      → ReportsMap (update_map h r f) (cons l r e)
  update-ReportsMap f e m k = at_update₂ (λ j g es. Reports g es) r k m

  pub read0-ReportsMap :
      ReportsMap h l → ReportsMap (update_map h r update_read0) (cons l r Event.read0)
  unfolding has_read1 has_write0 has_write1
  read0-ReportsMap k =
      update-ReportsMap update_read0 Event.read0
        (record { read1 = (k r).read1; write0 = (k r).write0; write1 = (k r).write1 }) k

  pub read1-ReportsMap :
      ReportsMap h l → ReportsMap (update_map h r update_read1) (cons l r Event.read1)
  unfolding has_read1 has_write0 has_write1
  read1-ReportsMap k =
      update-ReportsMap update_read1 Event.read1
        (record { read1 = λ e. refl; write0 = (k r).write0; write1 = (k r).write1 }) k

  pub write0-ReportsMap :
      (v : ℕ)
      → ReportsMap h l
      → ReportsMap (update_map h r update_write0) (cons l r (Event.write0 v))
  unfolding has_read1 has_write0 has_write1
  write0-ReportsMap v k =
      update-ReportsMap update_write0 (Event.write0 v)
        (record { read1 = (k r).read1; write0 = λ e. refl; write1 = (k r).write1 }) k

  pub write1-ReportsMap :
      (v : ℕ)
      → ReportsMap h l
      → ReportsMap (update_map h r update_write1) (cons l r (Event.write1 v))
  unfolding has_read1 has_write0 has_write1
  write1-ReportsMap v k =
      update-ReportsMap update_write1 (Event.write1 v)
        (record { read1 = (k r).read1; write0 = (k r).write0; write1 = λ e. refl }) k

abbrev pub set_kind : RegisterKind → Kind
set_kind RegisterKind.value = Kind.ehr
set_kind RegisterKind.wire = Kind.wire
set_kind RegisterKind.register = Kind.reg
set_kind RegisterKind.ehr = Kind.ehr

-- The cycle's log holds what the events `L` say, the rule's log what `l` and `L` say.
pub record Tracked (kinds : ℕ → RegisterKind) (R : ℕ → ℕ) (L l : Events) (s : Sim) : Type 0 where
  pub cycle_rwset :
      (r : ℕ)
      → is_value (kinds r) ≡ false
      → s.cycle_log.rwset r ≡ summary (set_kind (kinds r)) (L r)
  pub cycle_state : (r : ℕ) → s.cycle_log.state r ≡ latest_write (R r) (L r)
  pub cycle_fits : (r : ℕ) → is_value (kinds r) ≡ false → Fits (set_kind (kinds r)) (L r)
  pub rule_rwset :
      (r : ℕ)
      → is_value (kinds r) ≡ false
      → s.rule_log.rwset r ≡ summary (set_kind (kinds r)) (l r ++ L r)
  pub rule_state : (r : ℕ) → s.rule_log.state r ≡ latest_write (R r) (l r ++ L r)
  pub rule_fits : (r : ℕ) → is_value (kinds r) ≡ false → Fits (set_kind (kinds r)) (l r ++ L r)

module _ (kinds : ℕ → RegisterKind) (R : ℕ → ℕ) (L : Events) where
  abbrev IsTracked : Events → Sim → Type 0
  IsTracked l s = Tracked kinds R L l s

  abbrev kind : ℕ → Kind
  kind r = set_kind (kinds r)

  -- One more event in the rule's log, by what it does to the place of its register.
  IsTracked-event :
      (l : Events) (s : Sim) (r : ℕ) (e : Event) (log : Log)
      → ((q : ℕ)
          → is_value (kinds q) ≡ false
          → log.rwset q ≡ summary (kind q) (cons l r e q ++ L q))
      → ((q : ℕ) → log.state q ≡ latest_write (R q) (cons l r e q ++ L q))
      → (is_value (kinds r) ≡ false → Fits (kind r) (e ∷ (l r ++ L r)))
      → IsTracked l s
      → IsTracked (cons l r e) (record s { rule_log = log })
  IsTracked-event l s r e log w v f t = record {
    cycle_rwset = t.cycle_rwset;
    cycle_state = t.cycle_state;
    cycle_fits = t.cycle_fits;
    rule_rwset = w;
    rule_state = v;
    rule_fits =
        at_update (λ j es. is_value (kinds j) ≡ false → Fits (kind j) (es ++ L j)) r t.rule_fits f;
  }

module _ {kinds : ℕ → RegisterKind} {R : ℕ → ℕ} {L l : Events} {s : Sim} (r : ℕ) where
  pub Tracked-read0 : Tracked kinds R L l s → Tracked kinds R L (cons l r Event.read0) s
  unfolding latest_write
  Tracked-read0 t =
      IsTracked-event kinds R L l s r Event.read0 s.rule_log
        (at_update
          (λ j es.
            is_value (kinds j) ≡ false
            → s.rule_log.rwset j ≡ summary (set_kind (kinds j)) (es ++ L j))
          r t.rule_rwset
          (λ nv. t.rule_rwset r nv ∙ summary-read0 (set_kind (kinds r)) (l r ++ L r)))
        (at_update (λ j es. s.rule_log.state j ≡ latest_write (R j) (es ++ L j)) r t.rule_state
          (t.rule_state r))
        (λ nv. read0-Fits (l r ++ L r) (set_kind (kinds r)) (t.rule_fits r nv)) t

  -- A read at port 1 of a register without a set.
  pub Tracked-read1_fast :
      is_value (kinds r) ≡ true → Tracked kinds R L l s → Tracked kinds R L (cons l r Event.read1) s
  unfolding latest_write
  Tracked-read1_fast e t =
      IsTracked-event kinds R L l s r Event.read1 s.rule_log
        (at_update
          (λ j es.
            is_value (kinds j) ≡ false
            → s.rule_log.rwset j ≡ summary (set_kind (kinds j)) (es ++ L j))
          r t.rule_rwset (λ nv. cc))
        (at_update (λ j es. s.rule_log.state j ≡ latest_write (R j) (es ++ L j)) r t.rule_state
          (t.rule_state r))
        (λ nv. cc) t

  pub Tracked-read1 :
      (a : Access)
      → a.rwset ≡ summary (set_kind (kinds r)) (Event.read1 ∷ (l r ++ L r))
      → has_port_read1 (set_kind (kinds r)) ≡ true
      → Tracked kinds R L l s
      → Tracked kinds R L (cons l r Event.read1) (mark s r a)
  unfolding latest_write mark
  Tracked-read1 a w p t =
      IsTracked-event kinds R L l s r Event.read1 _
        (at_update₂
          (λ j set es. is_value (kinds j) ≡ false → set ≡ summary (set_kind (kinds j)) (es ++ L j))
          r t.rule_rwset (λ nv. w))
        (at_update (λ j es. s.rule_log.state j ≡ latest_write (R j) (es ++ L j)) r t.rule_state
          (t.rule_state r))
        (λ nv. read1-Fits (l r ++ L r) (set_kind (kinds r)) p (t.rule_fits r nv)) t

  -- A write at either port, the value of which is then the latest.
  pub Tracked-write_fast :
      (e : Event) (v : ℕ)
      → latest_write (R r) (e ∷ (l r ++ L r)) ≡ v
      → is_value (kinds r) ≡ true
      → Tracked kinds R L l s
      → Tracked kinds R L (cons l r e) (write_fast s r v)
  Tracked-write_fast e v latest is t =
      IsTracked-event kinds R L l s r e _
        (at_update
          (λ j es.
            is_value (kinds j) ≡ false
            → s.rule_log.rwset j ≡ summary (set_kind (kinds j)) (es ++ L j))
          r t.rule_rwset (λ nv. cc))
        (at_update₂ (λ j w es. w ≡ latest_write (R j) (es ++ L j)) r t.rule_state (sym latest))
        (λ nv. cc) t

  pub Tracked-write :
      (e : Event) (a : Access)
      → latest_write (R r) (e ∷ (l r ++ L r)) ≡ a.value
      → a.rwset ≡ summary (set_kind (kinds r)) (e ∷ (l r ++ L r))
      → Fits (set_kind (kinds r)) (e ∷ (l r ++ L r))
      → Tracked kinds R L l s
      → Tracked kinds R L (cons l r e) (store s r a)
  unfolding store
  Tracked-write e a latest w f t =
      IsTracked-event kinds R L l s r e _
        (at_update₂
          (λ j set es. is_value (kinds j) ≡ false → set ≡ summary (set_kind (kinds j)) (es ++ L j))
          r t.rule_rwset (λ nv. w))
        (at_update₂ (λ j w es. w ≡ latest_write (R j) (es ++ L j)) r t.rule_state (sym latest))
        (λ nv. f) t
