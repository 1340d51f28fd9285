-- ===== src/UnitTests/HostMetrics/Cpu.antt =====
-- The tests of temperature and CPU time (src/host_metrics/cpu.rs, module tests).
use web3_pi_ups_service.Prelude.{◌≡◌, refl, ℕ, none, some, [], ◌∷◌, ◌++◌, Text, ascii}
use web3_pi_ups_service.Prelude.Int.{pos, negsuc}
use web3_pi_ups_service.HostMetrics.Cpu.{CpuSnap, compute_usage_pct}
use web3_pi_ups_service.HostMetrics.Cpu.Parse.{parse_temp_mdeg, parse_cpu_stat, read_fields}

-- The end of a line.
abbrev pub nl : Text
nl = 10 ∷ []

abbrev TempMdegToDdeg : Type 0
TempMdegToDdeg =
    (parse_temp_mdeg (ascii "55248" ++ nl) ≡ some (pos 552))
    × (parse_temp_mdeg (ascii "-12345" ++ nl) ≡ some (negsuc 122))

temp_mdeg_to_ddeg : TempMdegToDdeg
unfolding parse_temp_mdeg
temp_mdeg_to_ddeg = (refl, refl)

-- The asserted fields, and the others of the line.
abbrev CpuStatParses : Type 0
CpuStatParses =
    let s = ascii "cpu  100 5 50 1000 30 0 2 0 0 0" ++ nl ++ ascii "cpu0 ..." ++ nl in
    parse_cpu_stat s
    ≡ some (record {
      user = 100;
      nice = 5;
      system = 50;
      idle = 1000;
      iowait = 30;
      irq = 0;
      softirq = 2;
    })

cpu_stat_parses : CpuStatParses
unfolding parse_cpu_stat read_fields
cpu_stat_parses = refl

abbrev CpuStatRejectsNonAggregate : Type 0
CpuStatRejectsNonAggregate = parse_cpu_stat (ascii "stat junk" ++ nl) ≡ none

cpu_stat_rejects_non_aggregate : CpuStatRejectsNonAggregate
unfolding parse_cpu_stat read_fields
cpu_stat_rejects_non_aggregate = refl

-- The readings of the tests, which differ in two fields.
abbrev snap : ℕ → ℕ → CpuSnap
snap user idle = record {
  user = user;
  nice = 0;
  system = 0;
  idle = idle;
  iowait = 0;
  irq = 0;
  softirq = 0;
}

abbrev CpuUsageZeroWhenAllIdle : Type 0
CpuUsageZeroWhenAllIdle = compute_usage_pct (snap 0 100) (snap 0 200) ≡ some 0

cpu_usage_zero_when_all_idle : CpuUsageZeroWhenAllIdle
unfolding compute_usage_pct
cpu_usage_zero_when_all_idle = refl

abbrev CpuUsageFullWhenNoIdleDelta : Type 0
CpuUsageFullWhenNoIdleDelta = compute_usage_pct (snap 0 100) (snap 100 100) ≡ some 100

cpu_usage_full_when_no_idle_delta : CpuUsageFullWhenNoIdleDelta
unfolding compute_usage_pct
cpu_usage_full_when_no_idle_delta = refl

abbrev CpuUsageHalf : Type 0
CpuUsageHalf = compute_usage_pct (snap 0 100) (snap 100 200) ≡ some 50

cpu_usage_half : CpuUsageHalf
unfolding compute_usage_pct
cpu_usage_half = refl

abbrev CpuUsageHandlesNoProgress : Type 0
CpuUsageHandlesNoProgress = compute_usage_pct (snap 0 100) (snap 0 100) ≡ some 0

cpu_usage_handles_no_progress : CpuUsageHandlesNoProgress
unfolding compute_usage_pct
cpu_usage_handles_no_progress = refl
