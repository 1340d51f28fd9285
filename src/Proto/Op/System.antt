-- ===== src/Proto/Op/System.antt =====
-- Operations of the system class (src/proto/mod.rs, module op::system).
use web3_pi_ups_service.Prelude.{ℕ}

abbrev pub ping : ℕ
ping = 0x01

abbrev pub hello : ℕ
hello = 0x02

abbrev pub status_query : ℕ
status_query = 0x03

abbrev pub log : ℕ
log = 0x04
