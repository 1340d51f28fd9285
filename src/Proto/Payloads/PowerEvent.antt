-- ===== src/Proto/Payloads/PowerEvent.antt =====
-- Codes of power events (src/proto/payloads.rs, module power_event).
use web3_pi_ups_service.Prelude.{ℕ}

abbrev pub mains_lost : ℕ
mains_lost = 1

abbrev pub mains_restored : ℕ
mains_restored = 2

abbrev pub charge_low : ℕ
charge_low = 3

abbrev pub charge_full : ℕ
charge_full = 4

abbrev pub fault : ℕ
fault = 5
