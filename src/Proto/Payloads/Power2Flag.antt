-- ===== src/Proto/Payloads/Power2Flag.antt =====
-- Bits of the flags of v2 (src/proto/payloads.rs, module power2_flag).
use web3_pi_ups_service.Prelude.{ℕ, ◌^◌}

abbrev pub dc_in_en : ℕ
dc_in_en = 2 ^ 0

abbrev pub vbus_out_en : ℕ
vbus_out_en = 2 ^ 1

abbrev pub batt_present : ℕ
batt_present = 2 ^ 2

abbrev pub power_good : ℕ
power_good = 2 ^ 3

abbrev pub usb_c_attach : ℕ
usb_c_attach = 2 ^ 4
