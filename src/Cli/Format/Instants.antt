-- ===== src/Cli/Format/Instants.antt =====
-- The time of day and the date that src/cli.rs shows for an instant, and the time of running.
use web3_pi_ups_service.Prelude.{ℕ, ◌+◌, ◌*◌, ◌/◌, ◌%◌, ◌<◌, ◌≡◌, ap, ◌++◌, Text, ascii, arith}
use web3_pi_ups_service.Cli.Clock.{Date}
use web3_pi_ups_service.Cli.Clock.Calendar.{days_after, epoch}
use web3_pi_ups_service.Cli.Clock.Days.{days_to_ymd-days_after}
use web3_pi_ups_service.Cli.Format.{show_date, show_time, format_clock_utc}

-- What is shown of `n` days, `h` hours, `mi` minutes and `s` seconds since 1970.
abbrev pub utc_text : ℕ → ℕ → ℕ → ℕ → Text
utc_text n h mi s = show_date (days_after n epoch) ++ ascii " " ++ show_time h mi s ++ ascii " UTC"

-- A text shows the day, counted from 1970-01-01 in the Gregorian calendar, and the time of day
-- that together are the whole seconds of a Unix time in milliseconds.
abbrev pub IsUtcText : ℕ → Text → Type 0
IsUtcText unix_ms text =
    (n h mi s : ℕ) × (text ≡ utc_text n h mi s)
    × (h < 24)
    × (mi < 60)
    × (s < 60)
    × (((n * 24 + h) * 60 + mi) * 60 + s ≡ unix_ms / 1000)

-- The text of any Unix time in milliseconds shows the day of the Gregorian calendar, counted day by
-- day from 1970-01-01, and the hour, minute and second, which together are its whole seconds.
pub format_clock_utc-IsUtcText : (unix_ms : ℕ) → IsUtcText unix_ms (format_clock_utc unix_ms)
unfolding format_clock_utc
format_clock_utc-IsUtcText unix_ms =
    let secs = unix_ms / 1000 in
    let shown : Date → Text = λ t.
      show_date t
      ++ ascii " "
      ++ show_time (secs / 3600 % 24) (secs / 60 % 60) (secs % 60)
      ++ ascii " UTC" in
    (
      secs / 86400,
      secs / 3600 % 24,
      secs / 60 % 60,
      secs % 60,
      ap shown (days_to_ymd-days_after (secs / 86400)),
      omega arith,
      omega arith,
      omega arith,
      omega arith,
    )
