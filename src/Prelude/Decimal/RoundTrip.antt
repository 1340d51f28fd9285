-- ===== src/Prelude/Decimal/RoundTrip.antt =====
-- What is printed is read back.
use Prim.Native.Nat.{ℕ, zero, suc, ◌+◌, ◌/◌, ◌%◌, ◌^◌, ◌<◌, ◌≤◌}
use mathlib.Core.Path.{◌≡◌, refl, sym, ap, ◌∙◌}
use mathlib.Core.Logic.{inl, inr}
use mathlib.Core.Bool.{false}
use mathlib.Core.Option.{some}
use mathlib.Core.List.{[], ◌∷◌}
use native.Mathlib.Omega.{arith}
use web3_pi_ups_service.Prelude.Tests.{◌==◌, Bool-cases}
use web3_pi_ups_service.Prelude.Lists.{All}
use web3_pi_ups_service.Prelude.Ascii.{Text}
use web3_pi_ups_service.Prelude.Decimal.{show_digits, show, read_digits, parse_uint}

abbrev pub IsDigit : ℕ → Type 0
IsDigit c = (48 ≤ c) × (c ≤ 57)

-- Reading the last digit after the digits before it.
read_last :
    (max n : ℕ) (out : Text)
    → n ≤ max
    → read_digits max (n / 10) ((48 + n % 10) ∷ out) ≡ read_digits max n out
unfolding read_digits
read_last max n out h = ground arith

read_digits-show_digits :
    (fuel max n : ℕ) (out : Text)
    → n ≤ max
    → n < 10 ^ fuel
    → read_digits max 0 (show_digits fuel n out) ≡ read_digits max n out
unfolding show_digits
read_digits-show_digits zero max n out h k = ap (λ t. read_digits max t out) (omega arith)
read_digits-show_digits (suc fuel) max n out h k = elim (Bool-cases (n / 10 == 0)) [
  | inl last ↦
      let first : n / 10 ≡ 0 = ground arith in
      rw last
        (ap (λ t. read_digits max t ((48 + n % 10) ∷ out)) (sym first) ∙ read_last max n out h)
  | inr more ↦ rw more (
      read_digits-show_digits fuel max (n / 10) _ (omega arith) (omega arith)
      ∙ read_last max n out h)
]

-- A number as it is printed: digits, and one of them at least.
abbrev pub IsNumeral : Text → Type 0
IsNumeral [] = ⊥
IsNumeral (c ∷ s) = IsDigit c × All IsDigit s

last-IsDigit : (n : ℕ) → IsDigit (48 + n % 10)
last-IsDigit n = omega arith

show_digits-IsNumeral :
    (fuel n : ℕ) (out : Text) → IsNumeral out → IsNumeral (show_digits fuel n out)
unfolding show_digits
show_digits-IsNumeral zero n out h = h
show_digits-IsNumeral (suc fuel) n [] h = elim h [ ]
show_digits-IsNumeral (suc fuel) n (c ∷ out) h = elim (Bool-cases (n / 10 == 0)) [
  | inl last ↦ rw last (last-IsDigit n, h)
  | inr more ↦ rw more (show_digits-IsNumeral fuel (n / 10) _ (last-IsDigit n, h))
]

pub show-IsNumeral : (n : ℕ) → IsNumeral (show n)
unfolding show show_digits
show-IsNumeral n = elim (Bool-cases (n / 10 == 0)) [
  | inl last ↦ rw last (last-IsDigit n, tt)
  | inr more ↦ rw more (show_digits-IsNumeral 19 (n / 10) _ (last-IsDigit n, tt))
]

parse_uint-digits : (max : ℕ) (s : Text) → IsNumeral s → parse_uint max s ≡ read_digits max 0 s
unfolding parse_uint
parse_uint-digits max [] h = elim h [ ]
parse_uint-digits max (c ∷ s) h =
    let unsigned : (c == 43) ≡ false = ground arith in rw unsigned refl

-- What `{}` prints of a number that fits is parsed to that number.
pub parse_uint-show :
    (max n : ℕ) → n ≤ max → n < 100_000_000_000_000_000_000 → parse_uint max (show n) ≡ some n
parse_uint-show max n h k =
    parse_uint-digits max (show n) (show-IsNumeral n)
    ∙ (unfold show read_digits in read_digits-show_digits 20 max n [] h k)
