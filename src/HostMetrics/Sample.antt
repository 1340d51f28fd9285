-- ===== src/HostMetrics/Sample.antt =====
-- One tick's metrics (src/host_metrics/mod.rs and network.rs).
use web3_pi_ups_service.Prelude.{ℕ, Option}
use web3_pi_ups_service.Proto.Payloads.HostStatusV1.{HostStatusV1}

pub record NetTotals : Type 0 where
  pub bytes_rx : ℕ
  pub bytes_tx : ℕ

pub record HostMetricsSample : Type 0 where
  pub status : HostStatusV1
  pub cpu_usage_pct : Option ℕ
  pub net : Option NetTotals
  pub net_rx_bytes_per_s : Option ℕ
  pub net_tx_bytes_per_s : Option ℕ
