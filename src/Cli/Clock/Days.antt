-- ===== src/Cli/Clock/Days.antt =====
-- The dates of src/cli.rs against the calendar.
use web3_pi_ups_service.Prelude.{
  ℕ, zero, suc, ◌+◌, ◌-◌, ◌/◌, ◌%◌, ◌<◌, ◌≡◌, refl, sym, ap, ◌∙◌, ltb→lt, ltb, Bool-cases, inl, inr,
  ◌⊎◌, arith,
}
use web3_pi_ups_service.Prelude.Int.{ℤ, pos, negsuc, ◌+ℤ◌}
use web3_pi_ups_service.Cli.Clock.{era_of, day_of_era, Date, days_to_ymd}
use web3_pi_ups_service.Cli.Clock.Calendar.{day_after, days_after, epoch}
use web3_pi_ups_service.Cli.Clock.Years.{date_of, date_of_step, date_of_next}

era_pos : (n : ℕ) → era_of (pos n) ≡ pos (n / 146097)
era_pos n = ground arith

day_pos : (n : ℕ) → day_of_era (pos n) ≡ n % 146097
day_pos n = rw (era_pos n) (ground arith)

era_negsuc : (n : ℕ) → era_of (negsuc n) ≡ negsuc (n / 146097)
era_negsuc n = ground arith

day_negsuc : (n : ℕ) → day_of_era (negsuc n) ≡ 146096 - n % 146097
day_negsuc n = rw (era_negsuc n) (ground arith)

-- How the era and the day of it go on from one day to the next.
abbrev GoesOn : ℤ → ℕ → ℤ → ℕ → Type 0
GoesOn era doe era' doe' =
    ((doe + 1 < 146097) × (era' ≡ era) × (doe' ≡ doe + 1))
    ⊎ ((doe ≡ 146096) × (era' ≡ era +ℤ pos 1) × (doe' ≡ 0))

date_of-GoesOn :
    (era era' : ℤ) (doe doe' : ℕ)
    → GoesOn era doe era' doe'
    → date_of era' doe' ≡ day_after (date_of era doe)
date_of-GoesOn era era' doe doe' (inl (h, e, d)) =
    (λ i. date_of (e i) (d i)) ∙ date_of_step era doe h
date_of-GoesOn era era' doe doe' (inr (h, e, d)) =
    (λ i. date_of (e i) (d i)) ∙ date_of_next era ∙ (λ i. day_after (date_of era (sym h i)))

pos_GoesOn :
    (n : ℕ) → GoesOn (pos (n / 146097)) (n % 146097) (pos ((n + 1) / 146097)) ((n + 1) % 146097)
pos_GoesOn n = elim (Bool-cases (ltb (n % 146097 + 1) 146097)) [
  | inl inner ↦ inl (ltb→lt _ _ inner, ground arith, ground arith)
  | inr last ↦ inr (ground arith, ground arith, ground arith)
]

negsuc_GoesOn :
    (n : ℕ)
    → GoesOn
        (negsuc ((n + 1) / 146097))
        (146096 - (n + 1) % 146097)
        (negsuc (n / 146097))
        (146096 - n % 146097)
negsuc_GoesOn n = elim (Bool-cases (ltb (n % 146097 + 1) 146097)) [
  | inl inner ↦ inl (ground arith, ground arith, ground arith)
  | inr last ↦ inr (ground arith, ground arith, ground arith)
]

-- The date of a number of days since 0000-03-01.
abbrev date_from_march : ℤ → Date
date_from_march z = date_of (era_of z) (day_of_era z)

march_pos : (n : ℕ) → date_from_march (pos n) ≡ date_of (pos (n / 146097)) (n % 146097)
march_pos n = λ i. date_of (era_pos n i) (day_pos n i)

march_negsuc :
    (n : ℕ) → date_from_march (negsuc n) ≡ date_of (negsuc (n / 146097)) (146096 - n % 146097)
march_negsuc n = λ i. date_of (era_negsuc n i) (day_negsuc n i)

add_one : (n : ℕ) → pos n +ℤ pos 1 ≡ pos (n + 1)
add_one n = ground arith

shift_one : (z : ℤ) → (z +ℤ pos 1) +ℤ pos 719468 ≡ (z +ℤ pos 719468) +ℤ pos 1
shift_one (pos n) = ground arith
shift_one (negsuc n) = ground arith

date_from_march_step : (z : ℤ) → date_from_march (z +ℤ pos 1) ≡ day_after (date_from_march z)
date_from_march_step (pos n) =
    ap date_from_march (add_one n)
    ∙ march_pos (n + 1)
    ∙ date_of-GoesOn _ _ _ _ (pos_GoesOn n)
    ∙ ap day_after (sym (march_pos n))
date_from_march_step (negsuc zero) =
    march_pos 0 ∙ date_of_next (negsuc 0) ∙ ap day_after (sym (march_negsuc 0))
date_from_march_step (negsuc (suc n)) =
    let e : negsuc (suc n) +ℤ pos 1 ≡ negsuc n = ground arith in
    let s : suc n ≡ n + 1 = omega arith in
    ap date_from_march e
    ∙ march_negsuc n
    ∙ date_of-GoesOn _ _ _ _ (negsuc_GoesOn n)
    ∙ ap day_after (sym (march_negsuc (n + 1)) ∙ (λ i. date_from_march (negsuc (sym s i))))

-- The date of the next number of days is the day after, before 1970 too.
pub days_to_ymd_step : (days : ℤ) → days_to_ymd (days +ℤ pos 1) ≡ day_after (days_to_ymd days)
unfolding days_to_ymd
days_to_ymd_step days =
    ap date_from_march (shift_one days) ∙ date_from_march_step (days +ℤ pos 719468)

-- Day `n` since 1970-01-01 gets the date that is found by going through the Gregorian calendar
-- day by day.
pub days_to_ymd-days_after : (n : ℕ) → days_to_ymd (pos n) ≡ days_after n epoch
days_to_ymd-days_after zero = unfold days_to_ymd in refl
days_to_ymd-days_after (suc n) =
    ap days_to_ymd (ap pos (omega arith) ∙ sym (add_one n))
    ∙ days_to_ymd_step (pos n)
    ∙ ap day_after (days_to_ymd-days_after n)
