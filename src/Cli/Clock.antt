-- ===== src/Cli/Clock.antt =====
-- Dates and durations from days since 1970-01-01 (src/cli.rs, `days_to_ymd`).
pub mod Calendar
pub mod Years
pub mod Days
use web3_pi_ups_service.Prelude.{
  ℕ, zero, suc, ◌+◌, ◌-◌, ◌*◌, ◌/◌, ◌%◌, ◌≤◌, ◌<◌, ◌≡◌, refl, sym, ap, ◌∙◌, ltb→lt, ltb, leb, ◌==◌,
  if◌then◌else◌, Bool, true, false, not, ◌&&◌, ◌||◌, Bool-cases, inl, inr, ◌⊎◌, arith,
}
use web3_pi_ups_service.Prelude.Int.{
  ℤ, pos, negsuc, pos_part, neg_part, leb_ℤ, ◌+ℤ◌, ◌-ℤ◌, ◌*ℕ◌, ◌/ℕ◌,
}

-- The parts of `days_to_ymd`. An era is 400 years that begin on a first of March.
abbrev pub era_of : ℤ → ℤ
era_of z = (if leb_ℤ (pos 0) z then z else z -ℤ pos 146096) /ℕ 146097

-- `as u64` of a value that is not negative.
abbrev pub day_of_era : ℤ → ℕ
day_of_era z = pos_part (z -ℤ era_of z *ℕ 146097)

abbrev pub year_of_era : ℕ → ℕ
year_of_era doe = (doe - doe / 1460 + doe / 36524 - doe / 146096) / 365

abbrev pub day_of_year : ℕ → ℕ → ℕ
day_of_year doe yoe = doe - (365 * yoe + yoe / 4 - yoe / 100)

-- Month and day from the day of a year that begins in March.
abbrev pub month_of : ℕ → ℕ
month_of doy = let mp = (5 * doy + 2) / 153 in if ltb mp 10 then mp + 3 else mp - 9

abbrev pub day_of : ℕ → ℕ
day_of doy = let mp = (5 * doy + 2) / 153 in doy - (153 * mp + 2) / 5 + 1

pub record Date : Type 0 where
  pub year : ℤ
  pub month : ℕ
  pub day : ℕ

-- The date of a day of the March year `y`.
unfoldable pub date_in : ℤ → ℕ → Date
date_in y doy = record {
  year = if leb (month_of doy) 2 then y +ℤ pos 1 else y;
  month = month_of doy;
  day = day_of doy;
}

unfoldable pub days_to_ymd : ℤ → Date
unfolding date_in
days_to_ymd days =
    let z = days +ℤ pos 719468 in
    let doe = day_of_era z in
    let yoe = year_of_era doe in date_in (pos yoe +ℤ era_of z *ℕ 400) (day_of_year doe yoe)
