-- ===== src/Proto/Flag.antt =====
-- Frame flags (src/proto/mod.rs, module flag).
use web3_pi_ups_service.Prelude.{ℕ}

abbrev pub req : ℕ
req = 1

abbrev pub resp : ℕ
resp = 2

abbrev pub event : ℕ
event = 4

abbrev pub need_ack : ℕ
need_ack = 128
