-- ===== src/Compiler/Footprint.antt =====
-- What RESET and COMMIT copy: `p_copy` and `p_commit_reset` of ocaml/backends/cpp.ml.
use koika.Prelude.{
  ℕ, ◌==◌, Bool, true, false, ◌&&◌, ◌||◌, List, [], ◌∷◌, ◌≡◌, refl, sym, ap, ◌∙◌, ◌⊎◌, inl, inr,
  if◌then◌else◌, cases_eq, Bool-cases, arith,
}
use koika.Registers.Rule.{Log, update}
use koika.Registers.Dynamic.Outside.{mem}
use koika.Compiler.History.{RegisterKind}
use koika.Compiler.Action.{Histories}
use koika.Compiler.Code.{
  filter_registers, copy_registers, copy, large_footprint, commit_reset, needs_rwdata, needs_rwset,
  rwdata_footprint, rwset_footprint,
}

mem-if :
    (q r : ℕ) (rs : List ℕ) (b : Bool)
    → mem q (if b then r ∷ rs else rs) ≡ ((b && q == r) || mem q rs)
unfolding mem
mem-if q r rs true = refl
mem-if q r rs false = refl

pub mem-filter_registers :
    (q : ℕ) (test : ℕ → Bool) (rs : List ℕ)
    → mem q (filter_registers test rs) ≡ (mem q rs && test q)
unfolding mem filter_registers
mem-filter_registers q test [] = refl
mem-filter_registers q test (r ∷ rs) =
    mem-if q r (filter_registers test rs) (test r)
    ∙ rw (mem-filter_registers q test rs) (same (cases_eq q r))
  where
    same :
        ((q ≡ r) × ((q == r) ≡ true)) ⊎ ((q == r) ≡ false)
        → ((test r && q == r) || (mem q rs && test q)) ≡ ((q == r || mem q rs) && test q)
    same (inl (e, t)) = rw (t, sym e) (ground arith)
    same (inr t) = rw t (ground arith)

pub copy_registers_lem {ℓ} :
    {A : Type ℓ} (rs : List ℕ) (src dst : ℕ → A) (q : ℕ)
    → (mem q rs ≡ false → dst q ≡ src q)
    → copy_registers rs src dst q ≡ src q
unfolding copy_registers mem
copy_registers_lem [] src dst q h = h refl
copy_registers_lem (r ∷ rs) src dst q h = copy_registers_lem rs src (update dst r (src r)) q (λ out.
    elim (cases_eq q r) [
      | inl (e, same) ↦ rw same (ap src (sym e))
      | inr other ↦ rw other (h (rw other out))
    ])

module _ (registers : List ℕ) (kinds : ℕ → RegisterKind) (histories : Histories) where
  copy_lem {ℓ} :
      {A : Type ℓ} (test : ℕ → Bool) (src dst : ℕ → A) (q : ℕ)
      → ((mem q registers && test q) ≡ false → dst q ≡ src q)
      → copy registers kinds histories (filter_registers test registers) src dst q ≡ src q
  copy_lem test src dst q h =
      elim (Bool-cases
        (large_footprint registers kinds histories (filter_registers test registers))) [
          | inl large ↦ rw large refl
          | inr small ↦ rw small (
              copy_registers_lem (filter_registers test registers) src dst q
                (λ out. h (sym (mem-filter_registers q test registers) ∙ out)))
        ]

  -- A register has the same value in both logs afterwards if it has it before where it is not copied.
  pub commit_reset-state :
      (src dst : Log) (q : ℕ)
      → ((mem q registers && needs_rwdata registers kinds histories q) ≡ false
          → dst.state q ≡ src.state q)
      → (commit_reset registers kinds histories src dst).state q ≡ src.state q
  unfolding commit_reset
  commit_reset-state src dst q h =
      elim (Bool-cases (
        large_footprint registers kinds histories (rwdata_footprint registers kinds histories)
        && large_footprint registers kinds histories (rwset_footprint registers kinds histories))) [
          | inl large ↦ rw large refl
          | inr small ↦
              rw small (copy_lem (needs_rwdata registers kinds histories) src.state dst.state q h)
        ]

  pub commit_reset-rwset :
      (src dst : Log) (q : ℕ)
      → ((mem q registers && needs_rwset registers kinds histories q) ≡ false
          → dst.rwset q ≡ src.rwset q)
      → (commit_reset registers kinds histories src dst).rwset q ≡ src.rwset q
  unfolding commit_reset
  commit_reset-rwset src dst q h =
      elim (Bool-cases (
        large_footprint registers kinds histories (rwdata_footprint registers kinds histories)
        && large_footprint registers kinds histories (rwset_footprint registers kinds histories))) [
          | inl large ↦ rw large refl
          | inr small ↦
              rw small (copy_lem (needs_rwset registers kinds histories) src.rwset dst.rwset q h)
        ]
