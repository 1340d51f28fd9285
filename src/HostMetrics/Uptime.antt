-- ===== src/HostMetrics/Uptime.antt =====
-- The parser of `/proc/uptime` (src/host_metrics/uptime.rs).
use web3_pi_ups_service.Prelude.{ℕ, Option, Text}
use web3_pi_ups_service.HostMetrics.Cpu.Parse.{Reals, parse_rounded}

unfoldable pub parse_uptime : Reals → Text → Option ℕ
unfolding parse_rounded
parse_uptime f64 s = parse_rounded f64 1 4294967295 s
