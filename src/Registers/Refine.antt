-- ===== src/Registers/Refine.antt =====
-- The read-write sets summarise the reference log: what they allow, and the values they give, are
-- what the log says.
pub mod Access
pub mod Simulation
pub mod Cycle
use koika.Prelude.{ℕ, Bool, true, false, not, ◌||◌, Option, none, some, List, [], ◌∷◌, ◌++◌, ◌≡◌}
use koika.Registers.{Rwset}
use koika.Registers.Rule.{Rule, Log, Sim, update}
use koika.Registers.Spec.{Event, Events, has_read1, has_write0, has_write1, latest_write}

-- The kind of set that the compiler has given a register.
pub data Kind : Type 0 where
  reg wire ehr : Kind

abbrev pub has_port_read0 : Kind → Bool
has_port_read0 Kind.reg = true
has_port_read0 Kind.wire = false
has_port_read0 Kind.ehr = true

abbrev pub has_port_read1 : Kind → Bool
has_port_read1 Kind.reg = false
has_port_read1 Kind.wire = true
has_port_read1 Kind.ehr = true

abbrev pub has_port_write1 : Kind → Bool
has_port_write1 Kind.reg = false
has_port_write1 Kind.wire = false
has_port_write1 Kind.ehr = true

-- A rule uses only ports that its registers have, and reads no register at port 1 after having
-- written it at port 1 itself; `written` marks those that it has.
abbrev pub WellPorted : (ℕ → Kind) → (ℕ → Bool) → Rule → Type 0
WellPorted kind written Rule.commit = Unit
WellPorted kind written Rule.fail = Unit
WellPorted kind written (Rule.rd0 r k) =
    (has_port_read0 (kind r) ≡ true) × ((v : ℕ) → WellPorted kind written (k v))
WellPorted kind written (Rule.rd1 r k) =
    (has_port_read1 (kind r) ≡ true)
    × (written r ≡ false)
    × ((v : ℕ) → WellPorted kind written (k v))
WellPorted kind written (Rule.wr0 r v k) = WellPorted kind written k
WellPorted kind written (Rule.wr1 r v k) =
    (has_port_write1 (kind r) ≡ true) × WellPorted kind (update written r true) k

-- The set that stands for a list of events.
abbrev pub summary : Kind → List Event → Rwset
summary Kind.reg es = Rwset.reg (has_write0 es)
summary Kind.wire es = Rwset.wire (has_read1 es) (has_write0 es)
summary Kind.ehr es = Rwset.ehr (has_read1 es) (has_write0 es) (has_write1 es)

-- A list of events holds only those that the kind of its register has.
abbrev pub Fits : Kind → List Event → Type 0
Fits Kind.reg es = (has_read1 es ≡ false) × (has_write1 es ≡ false)
Fits Kind.wire es = has_write1 es ≡ false
Fits Kind.ehr es = Unit

-- Between rules: both logs hold what the events of the cycle so far say.
pub record Holds (kind : ℕ → Kind) (R : ℕ → ℕ) (L : Events) (s : Sim) : Type 0 where
  pub agrees : s.rule_log ≡ s.cycle_log
  pub rwset : (r : ℕ) → s.cycle_log.rwset r ≡ summary (kind r) (L r)
  pub state : (r : ℕ) → s.cycle_log.state r ≡ latest_write (R r) (L r)
  pub fits : (r : ℕ) → Fits (kind r) (L r)

-- Inside a rule: the cycle's log as before, and the rule's log after the rule's events `l` as well.
pub record Tracks (kind : ℕ → Kind) (written : ℕ → Bool) (R : ℕ → ℕ) (L l : Events) (s : Sim)
    : Type 0 where
  pub cycle_rwset : (r : ℕ) → s.cycle_log.rwset r ≡ summary (kind r) (L r)
  pub cycle_state : (r : ℕ) → s.cycle_log.state r ≡ latest_write (R r) (L r)
  pub cycle_fits : (r : ℕ) → Fits (kind r) (L r)
  pub rule_rwset : (r : ℕ) → s.rule_log.rwset r ≡ summary (kind r) (l r ++ L r)
  pub rule_state : (r : ℕ) → s.rule_log.state r ≡ latest_write (R r) (l r ++ L r)
  pub rule_fits : (r : ℕ) → Fits (kind r) (l r ++ L r)
  pub unwritten : (r : ℕ) → written r ≡ false → has_write1 (l r) ≡ false
