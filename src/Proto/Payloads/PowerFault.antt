-- ===== src/Proto/Payloads/PowerFault.antt =====
-- Bits of the faults (src/proto/payloads.rs, module power_fault).
use web3_pi_ups_service.Prelude.{ℕ, ◌^◌}

abbrev pub ovp : ℕ
ovp = 2 ^ 0

abbrev pub ocp : ℕ
ocp = 2 ^ 1

abbrev pub otp : ℕ
otp = 2 ^ 2

abbrev pub pd_neg : ℕ
pd_neg = 2 ^ 3
