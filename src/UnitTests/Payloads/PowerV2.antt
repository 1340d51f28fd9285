-- ===== src/UnitTests/Payloads/PowerV2.antt =====
-- The tests of `power.status` on known bytes (src/proto/payloads.rs, module tests).
use web3_pi_ups_service.Prelude.{◌≡◌, refl, ◌∷◌, ℕ, drop, List, [], ok}
use web3_pi_ups_service.Prelude.Int.{pos, negsuc}
use web3_pi_ups_service.Proto.Payloads.PowerStatusV1
use web3_pi_ups_service.Proto.Payloads.PowerStatusV1.{PowerStatusV1}
use web3_pi_ups_service.Proto.Payloads.PowerStatusV2
use web3_pi_ups_service.Proto.Payloads.PowerStatusV2.{PowerStatusV2, i16_min, to_v1}
use web3_pi_ups_service.Proto.Payloads.Wire.{check_fixed_len}
use web3_pi_ups_service.UnitTests.Payloads.{IsErr, is_unexpected_length, is_unsupported_version}
use web3_pi_ups_service.UnitTests.Payloads.Texts.{repeated}

abbrev PowerStatusKnownBytes : Type 0
PowerStatusKnownBytes =
    let p : PowerStatusV1 = record {
      charge_state = 0x01;
      vbus_in_mv = 0x1234;
      vbus_out_mv = 0x5678;
      ibus_out_ma = negsuc 0;
      vbat_mv = 0x0bcd;
      ibat_ma = pos 0x0100;
      temp_dc = negsuc 49;
      pd_contract_mv = 0;
      pd_contract_ma = 0;
      faults = 0;
    } in
    PowerStatusV1.encode p
    ≡ 0x01 ∷ 0x01 ∷ 0x34 ∷ 0x12 ∷ 0x78 ∷ 0x56 ∷ 0xff ∷ 0xff ∷ 0xcd ∷ 0x0b ∷ 0x00 ∷ 0x01 ∷ 0xce
      ∷ 0xff ∷ 0x00 ∷ 0x00 ∷ 0x00 ∷ 0x00 ∷ 0x00 ∷ 0x00 ∷ []

power_status_known_bytes : PowerStatusKnownBytes
unfolding PowerStatusV1.encode
power_status_known_bytes = refl

abbrev known_bytes : List ℕ
known_bytes =
    0x02 ∷ 0x1f ∷ 0x02 ∷ 0x00 ∷ 0x20 ∷ 0x4e ∷ 0x98 ∷ 0x3a ∷ 0xd6 ∷ 0x06 ∷ 0xec ∷ 0x13 ∷ 0xec ∷ 0x13
    ∷ 0xba ∷ 0x13 ∷ 0x88 ∷ 0x13 ∷ 0x88 ∷ 0x13 ∷ 0x88 ∷ 0x13 ∷ 0xd0 ∷ 0x20 ∷ 0x06 ∷ 0xff ∷ 0xfc
    ∷ 0x21 ∷ 0xf4 ∷ 0x01 ∷ 0xfd ∷ 0x00 ∷ 0x00 ∷ 0x80 ∷ 0x00 ∷ 0x07 ∷ 0x40 ∷ 0xe2 ∷ 0x01 ∷ 0x00 ∷ []

-- The fields of the decoded status, and of its reduction to v1.
abbrev PowerStatusV2KnownBytes : Type 0
PowerStatusV2KnownBytes =
    let p : PowerStatusV2 = record {
      flags = 0x1f;
      charge_state = 2;
      vbus_in_mv = 20000;
      pd_in_mv = 15000;
      pd_in_ma = 1750;
      vbus_out_mv = 5100;
      vout_set_mv = 5100;
      vout_read_mv = 5050;
      iout_limit_ma = 5000;
      pd_out_mv = 5000;
      pd_out_ma = 5000;
      vbat_mv = 8400;
      ichg_ma = negsuc 249;
      vsys_mv = 8700;
      iin_ma = 500;
      temp_lm_dc = pos 253;
      temp_mp_dc = i16_min;
      faults = 0x0700;
      uptime_s = 123456;
    } in
    (PowerStatusV2.decode known_bytes ≡ ok p)
    × (to_v1 p ≡ record {
      charge_state = 2;
      vbus_in_mv = 20000;
      vbus_out_mv = 5050;
      ibus_out_ma = pos 5000;
      vbat_mv = 8400;
      ibat_ma = negsuc 249;
      temp_dc = pos 253;
      pd_contract_mv = 8700;
      pd_contract_ma = 500;
      faults = 0x0700;
    })

power_status_v2_known_bytes : PowerStatusV2KnownBytes
unfolding PowerStatusV2.decode check_fixed_len to_v1
power_status_v2_known_bytes = (refl, refl)

abbrev PowerStatusV2RejectsBadVersionAndLen : Type 0
PowerStatusV2RejectsBadVersionAndLen =
    IsErr is_unsupported_version (PowerStatusV2.decode (1 ∷ drop 1 (repeated 0 40)))
    × IsErr is_unexpected_length (PowerStatusV2.decode (repeated 2 20))

power_status_v2_rejects_bad_version_and_len : PowerStatusV2RejectsBadVersionAndLen
unfolding PowerStatusV2.decode check_fixed_len
power_status_v2_rejects_bad_version_and_len = (refl, refl)
