-- ===== src/Proto/Op/Net.antt =====
-- Operations of the net class (src/proto/mod.rs, module op::net).
use web3_pi_ups_service.Prelude.{ℕ}

abbrev pub status : ℕ
status = 0x01

abbrev pub publish : ℕ
publish = 0x02

abbrev pub downlink : ℕ
downlink = 0x10

abbrev pub time_sync : ℕ
time_sync = 0x20
