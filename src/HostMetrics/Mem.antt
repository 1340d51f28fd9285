-- ===== src/HostMetrics/Mem.antt =====
-- Used memory from `/proc/meminfo` (src/host_metrics/mem.rs).
pub mod Printed
use web3_pi_ups_service.Prelude.Chain.{◌>>=◌}
use web3_pi_ups_service.Prelude.{
  ℕ, ◌-◌, ◌*◌, ◌/◌, ◌%◌, Bool, true, false, min, ◌==◌, if◌then◌else◌, Option, none, some, List, [],
  ◌∷◌, Text, ascii,
}
use web3_pi_ups_service.Prelude.Split.{lines, first_word, strip_prefix}
use web3_pi_ups_service.HostMetrics.Cpu.{u64_size}
use web3_pi_ups_service.HostMetrics.Cpu.Parse.{parse_u64}

unfoldable pub parse_kb : Text → Option ℕ
unfolding first_word
parse_kb s = do w ← first_word s; parse_u64 w

abbrev pub mem_total : Text
mem_total = ascii "MemTotal:"

abbrev pub mem_available : Text
mem_available = ascii "MemAvailable:"

-- The variables `total` and `avail`.
abbrev pub Fields : Type 0
Fields = Option ℕ × Option ℕ

abbrev pub read_avail : Option Text → Fields → Fields
read_avail none fields = fields
read_avail (some rest) (total, avail) = (total, parse_kb rest)

abbrev pub read_total : Option Text → Option Text → Fields → Fields
read_total none rest fields = read_avail rest fields
read_total (some rest) other (total, avail) = (parse_kb rest, avail)

-- A line's effect on them.
unfoldable pub read_line : Text → Fields → Fields
unfolding strip_prefix parse_kb
read_line line fields =
    read_total (strip_prefix mem_total line) (strip_prefix mem_available line) fields

abbrev pub both : Fields → Bool
both (some total, some avail) = true
both _ = false

unfoldable pub scan : List Text → Fields → Fields
unfolding read_line
scan [] fields = fields
scan (line ∷ rest) fields =
    let read = read_line line fields in
    let later = scan rest read in if both read then read else later

-- `used * 100` wraps around where it does not fit a `u64`.
abbrev pub used_pct : ℕ → ℕ → ℕ
used_pct t a = min ((t - a) * 100 % u64_size / t) 100

abbrev pub pct_of : Fields → Option ℕ
pct_of (some t, some a) = some (if t == 0 then 0 else used_pct t a)
pct_of _ = none

unfoldable pub parse_used_pct : Text → Option ℕ
unfolding scan lines
parse_used_pct s = pct_of (scan (lines s) (none, none))
