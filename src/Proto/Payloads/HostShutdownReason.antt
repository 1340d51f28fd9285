-- ===== src/Proto/Payloads/HostShutdownReason.antt =====
-- Reasons of a shutdown (src/proto/payloads.rs, module host_shutdown_reason).
use web3_pi_ups_service.Prelude.{ℕ}

abbrev pub low_battery : ℕ
low_battery = 1

abbrev pub remote_cmd : ℕ
remote_cmd = 2

abbrev pub user : ℕ
user = 3

abbrev pub fault : ℕ
fault = 4
