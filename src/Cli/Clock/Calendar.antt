-- ===== src/Cli/Clock/Calendar.antt =====
-- The Gregorian calendar, day by day, for the dates of src/cli.rs.
use web3_pi_ups_service.Prelude.{
  ℕ, zero, suc, ◌+◌, ◌%◌, ◌<◌, ◌≡◌, refl, ◌∙◌, ltb, ◌==◌, if◌then◌else◌, Bool, true, not, ◌&&◌,
  ◌||◌, Bool-cases, inl, inr, arith,
}
use web3_pi_ups_service.Prelude.Int.{ℤ, pos, pos_part, neg_part, ◌+ℤ◌}
use web3_pi_ups_service.Cli.Clock.{Date, date_in}

-- The Gregorian calendar, day by day.
abbrev divides : ℕ → ℤ → Bool
divides n y = (pos_part y % n == 0) && (neg_part y % n == 0)

unfoldable pub is_leap : ℤ → Bool
is_leap y = divides 4 y && (not (divides 100 y) || divides 400 y)

unfoldable pub days_in_month : ℤ → ℕ → ℕ
days_in_month y m =
    if m == 2
    then (if is_leap y then 29 else 28)
    else if m == 4 || m == 6 || m == 9 || m == 11
    then 30
    else 31

unfoldable pub day_after : Date → Date
unfolding days_in_month
day_after t =
    if ltb t.day (days_in_month t.year t.month)
    then record t { day = t.day + 1 }
    else if ltb t.month 12
    then record t { month = t.month + 1; day = 1 }
    else record { year = t.year +ℤ pos 1; month = 1; day = 1 }

-- A day that is not the last of its March year, in any year.
pub date_in_step : (y : ℤ) (doy : ℕ) → doy < 364 → date_in y (doy + 1) ≡ day_after (date_in y doy)
unfolding date_in day_after
date_in_step y doy h = ground arith

-- The 28th of February in a leap year, and the last day of a March year.
pub date_in_leap : (y : ℤ) → is_leap (y +ℤ pos 1) ≡ true → date_in y 365 ≡ day_after (date_in y 364)
unfolding date_in day_after
date_in_leap y h = rw h refl

pub date_in_last :
    (y : ℤ) (doy : ℕ)
    → doy ≡ (if is_leap (y +ℤ pos 1) then 365 else 364)
    → date_in (y +ℤ pos 1) 0 ≡ day_after (date_in y doy)
unfolding date_in day_after
date_in_last y doy e = elim (Bool-cases (is_leap (y +ℤ pos 1))) [
  | inl leap ↦ let last : doy ≡ 365 = e ∙ (rw leap) in rw (last, leap) refl
  | inr common ↦ let last : doy ≡ 364 = e ∙ (rw common) in rw (last, common) refl
]

-- `n` days after a date.
abbrev pub days_after : ℕ → Date → Date
days_after zero t = t
days_after (suc n) t = day_after (days_after n t)

abbrev pub epoch : Date
epoch = record { year = pos 1970; month = 1; day = 1 }
