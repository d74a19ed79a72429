-- ===== src/Driver/Params.antt =====
-- The command line of a simulator: `params` and `params::of_cli` of
-- ocaml/backends/resources/cuttlesim.hpp, compiled with SIM_TRACE.
use koika.Prelude.{
  ℕ, ◌-◌, ◌%◌, ◌^◌, Bool, true, false, Option, none, some, List, [], ◌∷◌, ◌++◌, ltb, ◌==◌,
  if◌then◌else◌, ◌>>=◌, codes,
}
use koika.Prelude.{◌<◌, ◌≡◌, refl, ap, ◌∙◌, lt→ltb, arith}
use koika.Text.{is_decimal}
use koika.Text.Literals.{number_value, IsBase, AreDigits}
use koika.Text.Format.Roundtrip.{print_digits-value}
use koika.Text.Number.{
  skip_spaces, read_digits, decimal, decimal_digit, read_digits-number_value, digit_first,
  decimal-cons,
}

pub record Params : Type 0 where
  pub ncycles : ℕ
  pub vcd_fpath : List ℕ

-- `std::stoull`; an exception, which nothing catches, is `none`.
pub stoull_digits : Bool → List ℕ → Option ℕ
stoull_digits negative [] = none
stoull_digits negative (c ∷ cs) =
    let n = read_digits 0 (c ∷ cs) in
    if is_decimal c
    then (if ltb n (2 ^ 64) then some (if negative then (2 ^ 64 - n) % 2 ^ 64 else n) else none)
    else none

pub stoull_signed : List ℕ → Option ℕ
unfolding stoull_digits
stoull_signed [] = none
stoull_signed (c ∷ cs) =
    if c == 0x2d
    then stoull_digits true cs
    else if c == 0x2b
    then stoull_digits false cs
    else stoull_digits false (c ∷ cs)

pub stoull : List ℕ → Option ℕ
unfolding stoull_signed
stoull text = stoull_signed (skip_spaces text)

-- `of_cli`, by `argv[0]` and the arguments after it.
pub of_cli : List ℕ → List (List ℕ) → Option Params
unfolding stoull
of_cli program [] = some (record { ncycles = 1000; vcd_fpath = program ++ codes ".vcd" })
of_cli program (number ∷ []) =
    stoull number >>= λ n. some (record { ncycles = n; vcd_fpath = program ++ codes ".vcd" })
of_cli program (number ∷ fpath ∷ more) =
    stoull number >>= λ n. some (record { ncycles = n; vcd_fpath = fpath })

digits_stoull :
    (c : ℕ) (cs : List ℕ) (v : ℕ)
    → AreDigits 10 (c ∷ cs)
    → number_value 10 0 (c ∷ cs) ≡ v
    → v < 2 ^ 64
    → stoull (c ∷ cs) ≡ some v
unfolding stoull stoull_signed stoull_digits skip_spaces
digits_stoull c cs v h value fits =
    let (not_space, not_minus, not_plus) = digit_first c h.0 in
    rw
      (
        not_space,
        not_minus,
        not_plus,
        read_digits-number_value (c ∷ cs) 0 h,
        value,
        decimal_digit c h.0,
      )
      (rw (lt→ltb v (2 ^ 64) fits) refl)

-- A number of cycles in decimal is taken as it is.
pub of_cli-decimal :
    (program : List ℕ) (n : ℕ)
    → n < 2 ^ 64
    → of_cli program (decimal n ∷ [])
      ≡ some (record { ncycles = n; vcd_fpath = program ++ codes ".vcd" })
unfolding of_cli
of_cli-decimal program n fits =
    let (digits, value) = print_digits-value 10 IsBase.ten 64 n fits (omega arith) in
    let (c, cs, e) = decimal-cons n in
    ap
      (λ (o : Option ℕ).
        o >>= λ m. some (record { ncycles = m; vcd_fpath = program ++ codes ".vcd" }))
      (ap stoull e ∙ digits_stoull c cs n (rw e at digits) (rw e at value) fits)
