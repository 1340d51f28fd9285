-- ===== src/Cli/Format.antt =====
-- How src/cli.rs writes numbers, times and states.
pub mod Instants
use web3_pi_ups_service.Prelude.{
  ℕ, zero, suc, ◌+◌, ◌-◌, ◌*◌, ◌/◌, ◌%◌, Bool, ltb, leb, ◌==◌, if◌then◌else◌, [], ◌∷◌, ◌++◌, Text,
  ascii, length,
}
use web3_pi_ups_service.Prelude.Decimal.{show, show_ℤ, show_padded, repeat}
use web3_pi_ups_service.Prelude.Int.{ℤ, pos, negsuc}
use web3_pi_ups_service.Cli.Clock.{Date, days_to_ymd}

-- How Rust prints a floating-point quotient: `fixed32 d a b` stands for `format!("{:.d}", a as f32
-- / b as f32)`, and `fixed64` for the same on `f64`s.
pub record Floats : Type 0 where
  pub fixed32 : ℕ → ℤ → ℕ → Text
  pub fixed64 : ℕ → ℕ → ℕ → Text

-- `{:04}` counts the sign of a negative year.
abbrev pub show_year : ℤ → Text
show_year (pos n) = show_padded 4 n
show_year (negsuc n) = 45 ∷ show_padded 3 (suc n)

unfoldable pub show_date : Date → Text
unfolding show_padded
show_date t =
    show_year t.year ++ ascii "-" ++ show_padded 2 t.month ++ ascii "-" ++ show_padded 2 t.day

unfoldable pub show_time : ℕ → ℕ → ℕ → Text
unfolding show_padded
show_time h mi s = show_padded 2 h ++ ascii ":" ++ show_padded 2 mi ++ ascii ":" ++ show_padded 2 s

unfoldable pub format_clock_utc : ℕ → Text
unfolding show_date show_time days_to_ymd
format_clock_utc unix_ms =
    let secs = unix_ms / 1000 in
    let days = secs / 86400 in
    let t = days_to_ymd (pos days) in
    let h = secs / 3600 % 24 in
    let mi = secs / 60 % 60 in
    let s = secs % 60 in show_date t ++ ascii " " ++ show_time h mi s ++ ascii " UTC"

unfoldable pub fmt_uptime : ℕ → Text
unfolding show
fmt_uptime secs =
    let d = secs / 86400 in
    let h = secs / 3600 % 24 in
    let m = secs / 60 % 60 in
    let ss = secs % 60 in
    let seconds = show ss ++ ascii "s" in
    let minutes = show m ++ ascii "m " ++ seconds in
    let hours = show h ++ ascii "h " ++ minutes in
    if ltb 0 d
    then show d ++ ascii "d " ++ hours
    else if ltb 0 h
    then hours
    else if ltb 0 m
    then minutes
    else seconds

unfoldable pub fmt_mv : Floats → ℤ → Text
fmt_mv floats mv = floats.fixed32 2 mv 1000

unfoldable pub fmt_ma : Floats → ℤ → Text
fmt_ma floats ma = floats.fixed32 2 ma 1000

unfoldable pub fmt_bytes : Floats → ℕ → Text
unfolding show
fmt_bytes floats b =
    let k : ℕ = 1024 in
    let m = k * 1024 in
    let g = m * 1024 in
    if leb g b
    then floats.fixed64 1 b g ++ ascii "GB"
    else if leb m b
    then floats.fixed64 1 b m ++ ascii "MB"
    else if leb k b
    then floats.fixed64 1 b k ++ ascii "kB"
    else show b ++ ascii "B"

unfoldable pub charge_state_name : ℕ → Text
charge_state_name s =
    if s == 0
    then ascii "idle"
    else if s == 1
    then ascii "charging"
    else if s == 2
    then ascii "charged"
    else if s == 3
    then ascii "fault"
    else ascii "?"

unfoldable pub net_state_name : ℕ → Text
net_state_name s =
    if s == 0
    then ascii "off"
    else if s == 1
    then ascii "init"
    else if s == 2
    then ascii "net_attach"
    else if s == 3
    then ascii "ppp_up"
    else if s == 4
    then ascii "mqtt_up"
    else if s == 5
    then ascii "err"
    else ascii "?"

unfoldable pub power_event_name : ℕ → Text
power_event_name e =
    if e == 1
    then ascii "MAINS_LOST"
    else if e == 2
    then ascii "MAINS_RESTORED"
    else if e == 3
    then ascii "CHARGE_LOW"
    else if e == 4
    then ascii "CHARGE_FULL"
    else if e == 5
    then ascii "FAULT"
    else ascii "?"

-- A hexadecimal digit, and `{:04x}` of a `u16`.
abbrev pub hex_digit : ℕ → ℕ
hex_digit d = if ltb d 10 then 48 + d else 87 + d

unfoldable pub show_hex4 : ℕ → Text
show_hex4 n =
    hex_digit (n / 4096 % 16)
    ∷ hex_digit (n / 256 % 16)
    ∷ hex_digit (n / 16 % 16)
    ∷ hex_digit (n % 16)
    ∷ []

-- `{:<w}` of an ASCII text
unfoldable pub pad_right : ℕ → Text → Text
pad_right w s = s ++ repeat 32 (w - length s)

-- The width of the column of labels.
abbrev pub lbl : ℕ
lbl = 11

-- A line that `row` prints, without its end.
unfoldable pub row : Text → Text → Text
unfolding pad_right
row label value = ascii "  " ++ pad_right lbl label ++ ascii "  " ++ value
