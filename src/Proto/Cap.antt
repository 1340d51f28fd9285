-- ===== src/Proto/Cap.antt =====
-- Bits of the classes that a node serves (src/proto/mod.rs, module cap).
use web3_pi_ups_service.Prelude.{ℕ, ◌^◌}
use web3_pi_ups_service.Proto.Class

abbrev pub system : ℕ
system = 2 ^ Class.system

abbrev pub power : ℕ
power = 2 ^ Class.power

abbrev pub net : ℕ
net = 2 ^ Class.net

abbrev pub host : ℕ
host = 2 ^ Class.host

abbrev pub ui : ℕ
ui = 2 ^ Class.ui
