-- ===== src/Prelude/Loop.antt =====
-- `for (i = 0; i < n && !stop; i++) body`, where the body does not use `i`.
use Prim.Native.Nat.{ℕ, zero, suc, ◌+◌, ◌≤◌, ◌<◌}
use mathlib.Core.Path.{◌≡◌, refl, sym, ap, ◌∙◌}
use mathlib.Core.Logic.{◌⊎◌, inl, inr}
use mathlib.Core.Bool.{Bool, true, false}
use native.Mathlib.Omega.{arith}
use koika.Prelude.Tests.{if◌then◌else◌, Bool-cases, if-true, if-false}

abbrev pub iterate {ℓ} : {A : Type ℓ} → (A → A) → ℕ → A → A
iterate f zero x = x
iterate f (suc k) x = iterate f k (f x)

abbrev pub loop {ℓ} : {A : Type ℓ} → (A → Bool) → (A → A) → ℕ → A → A
loop stop f zero x = x
loop stop f (suc n) x = if stop x then x else loop stop f n (f x)

-- The loop takes `k` turns: up to the first state that stops it, or `n`.
abbrev pub Turns {ℓ} : {A : Type ℓ} → (A → Bool) → (A → A) → ℕ → A → ℕ → Type 0
Turns stop f n x k =
    (k ≤ n)
    × ((j : ℕ) → j < k → stop (iterate f j x) ≡ false)
    × ((k ≡ n) ⊎ (stop (iterate f k x) ≡ true))

Turns-next {ℓ} :
    {A : Type ℓ} (stop : A → Bool) (f : A → A) (n : ℕ) (x : A) (k : ℕ)
    → stop x ≡ false
    → Turns stop f n (f x) k
    → Turns stop f (suc n) x (suc k)
Turns-next stop f n x k going (few, before, why) = (
  omega (arith, few),
  earlier,
  elim why [ inl all ↦ inl (omega (arith, all)) | inr stopped ↦ inr stopped ],
)
  where
    earlier : (j : ℕ) → j < suc k → stop (iterate f j x) ≡ false
    earlier zero h = going
    earlier (suc j) h = before j (omega (arith, h))

pub loop-iterate {ℓ} :
    {A : Type ℓ} (stop : A → Bool) (f : A → A) (n : ℕ) (x : A)
    → (k : ℕ) × (loop stop f n x ≡ iterate f k x) × Turns stop f n x k
loop-iterate stop f zero x = (0, refl, (omega arith, λ j h. absurd (omega (arith, h)), inl refl))
loop-iterate stop f (suc n) x = elim (Bool-cases (stop x)) [
  | inl stopped ↦
      (0, if-true _ _ _ stopped, (omega arith, λ j h. absurd (omega (arith, h)), inr stopped))
  | inr going ↦
      let (k, ran, turns) = loop-iterate stop f n (f x) in
      (suc k, if-false _ _ _ going ∙ ran, Turns-next stop f n x k going turns)
]

pub loop_stopped {ℓ} :
    {A : Type ℓ} (stop : A → Bool) (f : A → A) (n : ℕ) (x : A) → stop x ≡ true → loop stop f n x ≡ x
loop_stopped stop f zero x h = refl
loop_stopped stop f (suc n) x h = if-true _ _ _ h

-- A loop of `n + m` turns is one of `n` turns, and one of `m`.
pub loop-add {ℓ} :
    {A : Type ℓ} (stop : A → Bool) (f : A → A) (n m : ℕ) (x : A)
    → loop stop f (n + m) x ≡ loop stop f m (loop stop f n x)
loop-add stop f zero m x = ap (λ k. loop stop f k x) (omega arith)
loop-add stop f (suc n) m x = elim (Bool-cases (stop x)) [
  | inl stopped ↦
      loop_stopped stop f (suc n + m) x stopped
      ∙ sym (loop_stopped stop f m x stopped)
      ∙ ap (loop stop f m) (sym (loop_stopped stop f (suc n) x stopped))
  | inr going ↦
      ap (λ k. loop stop f k x) more
      ∙ if-false _ _ _ going
      ∙ loop-add stop f n m (f x)
      ∙ ap (loop stop f m) (sym (if-false _ _ _ going))
]
  where
    more : suc n + m ≡ suc (n + m)
    more = omega arith
