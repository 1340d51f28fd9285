-- ===== src/Proto/Op/Power.antt =====
-- Operations of the power class (src/proto/mod.rs, module op::power).
use web3_pi_ups_service.Prelude.{ℕ}

abbrev pub status : ℕ
status = 0x01

abbrev pub enable : ℕ
enable = 0x02

abbrev pub disable : ℕ
disable = 0x03

abbrev pub cycle : ℕ
cycle = 0x04

abbrev pub reset : ℕ
reset = 0x05

abbrev pub event : ℕ
event = 0x10
