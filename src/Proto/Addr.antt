-- ===== src/Proto/Addr.antt =====
-- Node addresses (src/proto/mod.rs, module addr).
use web3_pi_ups_service.Prelude.{ℕ}

abbrev pub null : ℕ
null = 0x00

abbrev pub rpi : ℕ
rpi = 0x01

abbrev pub rp2040 : ℕ
rp2040 = 0x02

abbrev pub ch32x : ℕ
ch32x = 0x03

abbrev pub esp32 : ℕ
esp32 = 0x04

abbrev pub internal : ℕ
internal = 0x05

abbrev pub broadcast : ℕ
broadcast = 0xff
