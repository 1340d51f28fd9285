-- ===== src/UnitTests/HostMetrics/Mem.antt =====
-- The tests of `/proc/meminfo` (src/host_metrics/mem.rs, module tests).
use web3_pi_ups_service.Prelude.{◌≡◌, refl, none, some, ◌++◌, ascii}
use web3_pi_ups_service.HostMetrics.Mem.{parse_kb, read_line, scan, parse_used_pct}
use web3_pi_ups_service.Prelude.Decimal.{parse_uint}
use web3_pi_ups_service.UnitTests.HostMetrics.Cpu.{nl}

abbrev MeminfoParses : Type 0
MeminfoParses =
    let s =
      ascii "MemTotal:       16000000 kB"
      ++ nl
      ++ ascii "MemFree:         1000000 kB"
      ++ nl
      ++ ascii "MemAvailable:    8000000 kB"
      ++ nl in
    parse_used_pct s ≡ some 50

meminfo_parses : MeminfoParses
unfolding parse_used_pct scan read_line parse_kb parse_uint
meminfo_parses = refl

abbrev MeminfoFullUsed : Type 0
MeminfoFullUsed =
    let s = ascii "MemTotal:       1000 kB" ++ nl ++ ascii "MemAvailable:   0 kB" ++ nl in
    parse_used_pct s ≡ some 100

meminfo_full_used : MeminfoFullUsed
unfolding parse_used_pct scan read_line parse_kb parse_uint
meminfo_full_used = refl

abbrev MeminfoUnused : Type 0
MeminfoUnused =
    let s = ascii "MemTotal:       1000 kB" ++ nl ++ ascii "MemAvailable:   1000 kB" ++ nl in
    parse_used_pct s ≡ some 0

meminfo_unused : MeminfoUnused
unfolding parse_used_pct scan read_line parse_kb parse_uint
meminfo_unused = refl

abbrev MeminfoMissingFields : Type 0
MeminfoMissingFields = parse_used_pct (ascii "MemTotal:       1000 kB" ++ nl) ≡ none

meminfo_missing_fields : MeminfoMissingFields
unfolding parse_used_pct scan read_line parse_kb parse_uint
meminfo_missing_fields = refl
