-- ===== src/Proto/Payloads/HostEvent.antt =====
-- Codes of host events (src/proto/payloads.rs, module host_event).
use web3_pi_ups_service.Prelude.{ℕ}

abbrev pub shutdown_imminent : ℕ
shutdown_imminent = 1

abbrev pub low_disk : ℕ
low_disk = 2

abbrev pub eth_synced : ℕ
eth_synced = 3

abbrev pub eth_lost : ℕ
eth_lost = 4
