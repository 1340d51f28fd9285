-- ===== src/Proto/Class.antt =====
-- Frame classes (src/proto/mod.rs, module class).
use web3_pi_ups_service.Prelude.{ℕ}

abbrev pub system : ℕ
system = 0x01

abbrev pub power : ℕ
power = 0x02

abbrev pub net : ℕ
net = 0x03

abbrev pub host : ℕ
host = 0x04

abbrev pub ui : ℕ
ui = 0x05
