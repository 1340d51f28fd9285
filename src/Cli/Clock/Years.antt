-- ===== src/Cli/Clock/Years.antt =====
-- The years of a 400-year era of the dates of src/cli.rs, and their days.
use web3_pi_ups_service.Prelude.{
  ℕ, ◌+◌, ◌-◌, ◌*◌, ◌/◌, ◌%◌, ◌≤◌, ◌<◌, ◌≡◌, refl, ap, ◌∙◌, ltb→lt, ltb, ◌==◌, if◌then◌else◌, Bool,
  true, not, ◌&&◌, ◌||◌, Bool-cases, inl, inr, arith,
}
use web3_pi_ups_service.Prelude.Int.{ℤ, pos, negsuc, ◌+ℤ◌, ◌*ℕ◌}
use web3_pi_ups_service.Cli.Clock.{year_of_era, day_of_year, Date, date_in}
use web3_pi_ups_service.Cli.Clock.Calendar.{
  is_leap, day_after, date_in_step, date_in_leap, date_in_last,
}

-- Years of an era are as long as the leap rule says.
pub length_of_year :
    (era : ℤ) (yoe : ℕ)
    → yoe < 400
    → is_leap ((pos yoe +ℤ era *ℕ 400) +ℤ pos 1)
      ≡ (((yoe + 1) % 4 == 0) && (not ((yoe + 1) % 100 == 0) || (yoe + 1) % 400 == 0))
unfolding is_leap
length_of_year era yoe h = ground arith

-- The day of the era on which a year of it begins.
abbrev pub start : ℕ → ℕ
start y = 365 * y + y / 4 - y / 100 + y / 400

abbrev pub leap_ends : ℕ → Bool
leap_ends y = ((y + 1) % 4 == 0) && (not ((y + 1) % 100 == 0) || (y + 1) % 400 == 0)

pub start_step : (y : ℕ) → start (y + 1) ≡ start y + (if leap_ends y then 366 else 365)
start_step y = ground arith

pub year_of_era_bounds :
    (doe : ℕ)
    → doe < 146097
    → let y = year_of_era doe in
      (y < 400) × (start y ≤ doe) × (doe < start (y + 1)) × (doe ≡ start y + day_of_year doe y)
year_of_era_bounds doe h = omega arith

start_mono : (a b : ℕ) → a ≤ b → start a ≤ start b
start_mono a b h = omega arith

pub year_of_era_unique :
    (doe y : ℕ) → doe < 146097 → start y ≤ doe → doe < start (y + 1) → year_of_era doe ≡ y
year_of_era_unique doe y h lo hi =
    let (small, from, until, at) = year_of_era_bounds doe h in
    omega (arith, start_mono (year_of_era doe + 1) y, start_mono (y + 1) (year_of_era doe))

-- The date of a day of an era.
abbrev pub date_of : ℤ → ℕ → Date
date_of era doe = let yoe = year_of_era doe in date_in (pos yoe +ℤ era *ℕ 400) (day_of_year doe yoe)

within_year :
    (era : ℤ) (y doy : ℕ)
    → y < 400
    → start y + doy + 1 < start (y + 1)
    → date_in (pos y +ℤ era *ℕ 400) (doy + 1) ≡ day_after (date_in (pos y +ℤ era *ℕ 400) doy)
within_year era y doy h short = elim (Bool-cases (ltb doy 364)) [
  | inl inner ↦ date_in_step (pos y +ℤ era *ℕ 400) doy (ground arith)
  | inr late ↦
      let leap : leap_ends y ≡ true = ground (arith, start_step y) in
      let day : doy ≡ 364 = ground (arith, start_step y) in
      rw day (date_in_leap (pos y +ℤ era *ℕ 400) (length_of_year era y h ∙ leap))
]

year_to_year :
    (era : ℤ) (y doy : ℕ)
    → y < 400
    → start y + doy + 1 ≡ start (y + 1)
    → date_in ((pos y +ℤ era *ℕ 400) +ℤ pos 1) 0 ≡ day_after (date_in (pos y +ℤ era *ℕ 400) doy)
year_to_year era y doy h full =
    date_in_last (pos y +ℤ era *ℕ 400) doy
      (rw (length_of_year era y h) (ground (arith, start_step y)))

-- The date of a day of an era from the year and the day in it, found in any way.
date_of-at :
    (era : ℤ) (doe y doy : ℕ)
    → doe < 146097
    → doe ≡ start y + doy
    → doe < start (y + 1)
    → date_of era doe ≡ date_in (pos y +ℤ era *ℕ 400) doy
date_of-at era doe y doy h e until =
    let (small, from, before, at) = year_of_era_bounds doe h in
    let same_year : year_of_era doe ≡ y = year_of_era_unique doe y h (omega arith) until in
    let same_day : day_of_year doe (year_of_era doe) ≡ doy = omega (arith, ap start same_year) in
    λ i. date_in (pos (same_year i) +ℤ era *ℕ 400) (same_day i)

year_suc : (era : ℤ) (y : ℕ) → pos (y + 1) +ℤ era *ℕ 400 ≡ (pos y +ℤ era *ℕ 400) +ℤ pos 1
year_suc (pos n) y = ground arith
year_suc (negsuc n) y = ground arith

era_suc : (era : ℤ) → pos 0 +ℤ (era +ℤ pos 1) *ℕ 400 ≡ (pos 399 +ℤ era *ℕ 400) +ℤ pos 1
era_suc (pos n) = ground arith
era_suc (negsuc n) = ground arith

pub date_of_step :
    (era : ℤ) (doe : ℕ) → doe + 1 < 146097 → date_of era (doe + 1) ≡ day_after (date_of era doe)
date_of_step era doe h =
    let y = year_of_era doe in
    let doy = day_of_year doe y in
    let (small, from, until, at) = year_of_era_bounds doe (omega arith) in
    elim (Bool-cases (ltb (doe + 1) (start (y + 1)))) [
      | inl inner ↦
          let before_end : doe + 1 < start (y + 1) = ltb→lt _ _ inner in
          date_of-at era (doe + 1) y (doy + 1) h (omega arith) before_end
          ∙ within_year era y doy small (omega arith)
      | inr last ↦
          let full : doe + 1 ≡ start (y + 1) = ground arith in
          date_of-at era (doe + 1) (y + 1) 0 h (omega arith) (omega (arith, start_step (y + 1)))
          ∙ ap (λ t. date_in t 0) (year_suc era y)
          ∙ year_to_year era y doy small (omega arith)
    ]

pub date_of_next : (era : ℤ) → date_of (era +ℤ pos 1) 0 ≡ day_after (date_of era 146096)
date_of_next era = ap (λ t. date_in t 0) (era_suc era) ∙ year_to_year era 399 365 (omega arith) refl
