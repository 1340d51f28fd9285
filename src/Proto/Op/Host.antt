-- ===== src/Proto/Op/Host.antt =====
-- Operations of the host class (src/proto/mod.rs, module op::host).
use web3_pi_ups_service.Prelude.{ℕ}

abbrev pub status : ℕ
status = 0x01

abbrev pub shutdown : ℕ
shutdown = 0x02

abbrev pub reset : ℕ
reset = 0x03

abbrev pub service_restart : ℕ
service_restart = 0x04

abbrev pub service_start : ℕ
service_start = 0x05

abbrev pub service_stop : ℕ
service_stop = 0x06

abbrev pub event : ℕ
event = 0x10
