-- ===== src/Prelude/Power.antt =====
-- Powers of two, and quotients and remainders by them.
use Prim.Native.Nat.{ℕ, zero, suc, ◌+◌, ◌-◌, ◌*◌, ◌/◌, ◌%◌, ◌^◌, ◌≤◌, ◌<◌, ◌∣◌}
use mathlib.Core.Path.{◌≡◌, sym, ap, subst, ◌∙◌}
use native.Mathlib.Nat.{
  pow-suc, mul_assoc, div-add-mod', mod-eq_of_lt, div-eq_of_lt, mul-add-div_right, add-zero,
  mul-add-mod_self_right, pow-le-pow_right, mod-mod_of_dvd, dvd-mul_right, le_trans, add-suc,
  suc-mul,
}
use native.Mathlib.Omega.{arith}
use koika.Prelude.Digits.{two_pow_pos, mod-lt_pow}

pub pow-add : (a b : ℕ) → 2 ^ (a + b) ≡ 2 ^ a * 2 ^ b
pow-add a zero = rw (add-zero a) (omega arith)
pow-add a (suc b) =
    ground
      (arith, add-suc a b, pow-suc 2 (a + b), pow-suc 2 b, pow-add a b, mul_assoc (2 ^ a) (2 ^ b) 2)

-- The two parts of `hi * 2 ^ k + lo`.
module _ (k hi lo : ℕ) (h : lo < 2 ^ k) where
  pub fields-div : (hi * 2 ^ k + lo) / 2 ^ k ≡ hi
  fields-div = omega (arith, mul-add-div_right (two_pow_pos k) hi lo, div-eq_of_lt h)

  pub fields-mod : (hi * 2 ^ k + lo) % 2 ^ k ≡ lo
  fields-mod = mul-add-mod_self_right hi (2 ^ k) lo ∙ mod-eq_of_lt h

pub fields_of : (k a : ℕ) → a / 2 ^ k * 2 ^ k + a % 2 ^ k ≡ a
fields_of k a = div-add-mod' a (2 ^ k)

pub pow-le : {a b : ℕ} → a ≤ b → 2 ^ a ≤ 2 ^ b
pow-le h = pow-le-pow_right (omega arith) h

pub div-lt_pow : (a k w : ℕ) → a < 2 ^ (k + w) → a / 2 ^ k < 2 ^ w
div-lt_pow a k w h = grind (arith, pow-add k w, two_pow_pos k, fields_of k a, mod-lt_pow a k)

pub fields-lt : (k w hi lo : ℕ) → hi < 2 ^ w → lo < 2 ^ k → hi * 2 ^ k + lo < 2 ^ (k + w)
fields-lt k w hi lo p q = grind (arith, pow-add k w)

pub pow_split : {k w : ℕ} → k ≤ w → 2 ^ w ≡ 2 ^ k * 2 ^ (w - k)
pow_split {k} {w} h = ap (λ (t : ℕ). 2 ^ t) (omega arith) ∙ pow-add k (w - k)

-- Cutting to k bits after cutting to more bits.
pub mod-mod_pow : (a : ℕ) {k w : ℕ} → k ≤ w → a % 2 ^ w % 2 ^ k ≡ a % 2 ^ k
mod-mod_pow a {k} {w} h =
    mod-mod_of_dvd (2 ^ k) a (subst (λ t. 2 ^ k ∣ t) (sym (pow_split h)) (dvd-mul_right _ _))

pub mod_small : {a k w : ℕ} → a < 2 ^ k → k ≤ w → a % 2 ^ w ≡ a
mod_small {a} {k} {w} h le = mod-eq_of_lt (le_trans h (pow-le le))

-- A number of ones is two shorter numbers of ones, one after the other.
pub ones_split : (a b : ℕ) → 0 < a → 0 < b → (a - 1) * b + (b - 1) ≡ a * b - 1
ones_split zero b p q = absurd (omega arith)
ones_split (suc a) b p q = rw (suc-mul, pred_suc) (omega arith)
  where
    pred_suc : suc a - 1 ≡ a
    pred_suc = omega arith
