-- ===== src/Proto/Payloads/PowerStatusV1.antt =====
-- `power.status`: PowerStatusV1 (src/proto/payloads.rs).
use web3_pi_ups_service.Prelude.{
  ℕ, All, arith, ◌<◌, ◌≡◌, refl, List, [], ◌∷◌, length, get_or, Result, ok, ◌>>◌,
}
use web3_pi_ups_service.Prelude.Int.{ℤ, IsI16, i16_of_bits, bits_of_i16}
use web3_pi_ups_service.Proto.{proto_version}
use web3_pi_ups_service.Proto.Payloads.Wire.{
  PayloadError, check_fixed_len, check_version, byte0, byte1, from_le16, le16, le_i16,
}
use web3_pi_ups_service.Proto.Payloads.Wire.{signed_word, u16_lt, u8_lt}
use web3_pi_ups_service.Proto.Frame.{IsByte}
use web3_pi_ups_service.Proto.Payloads.Codec.{
  Codec, IsLawful, fixed_codec, fixed_codec-IsLawful, decode_fixed,
}

pub record PowerStatusV1 : Type 0 where
  pub charge_state : ℕ
  pub vbus_in_mv : ℕ
  pub vbus_out_mv : ℕ
  pub ibus_out_ma : ℤ
  pub vbat_mv : ℕ
  pub ibat_ma : ℤ
  pub temp_dc : ℤ
  pub pd_contract_mv : ℕ
  pub pd_contract_ma : ℕ
  pub faults : ℕ

-- The ranges of the fields' types.
pub record InRange (p : PowerStatusV1) : Type 0 where
  pub charge_state : p.charge_state < 256
  pub vbus_in_mv : p.vbus_in_mv < 65536
  pub vbus_out_mv : p.vbus_out_mv < 65536
  pub ibus_out_ma : IsI16 p.ibus_out_ma
  pub vbat_mv : p.vbat_mv < 65536
  pub ibat_ma : IsI16 p.ibat_ma
  pub temp_dc : IsI16 p.temp_dc
  pub pd_contract_mv : p.pd_contract_mv < 65536
  pub pd_contract_ma : p.pd_contract_ma < 65536
  pub faults : p.faults < 65536

abbrev pub wire_len : ℕ
wire_len = 20

unfoldable pub encode : PowerStatusV1 → List ℕ
encode p =
    proto_version
    ∷ p.charge_state
    ∷ (byte0 p.vbus_in_mv)
    ∷ (byte1 p.vbus_in_mv)
    ∷ (byte0 p.vbus_out_mv)
    ∷ (byte1 p.vbus_out_mv)
    ∷ (byte0 (bits_of_i16 p.ibus_out_ma))
    ∷ (byte1 (bits_of_i16 p.ibus_out_ma))
    ∷ (byte0 p.vbat_mv)
    ∷ (byte1 p.vbat_mv)
    ∷ (byte0 (bits_of_i16 p.ibat_ma))
    ∷ (byte1 (bits_of_i16 p.ibat_ma))
    ∷ (byte0 (bits_of_i16 p.temp_dc))
    ∷ (byte1 (bits_of_i16 p.temp_dc))
    ∷ (byte0 p.pd_contract_mv)
    ∷ (byte1 p.pd_contract_mv)
    ∷ (byte0 p.pd_contract_ma)
    ∷ (byte1 p.pd_contract_ma)
    ∷ (byte0 p.faults)
    ∷ (byte1 p.faults)
    ∷ []

-- The fields that `decode` reads when its checks pass.
abbrev pub fields : List ℕ → PowerStatusV1
fields buf = record {
  charge_state = get_or buf 1 0;
  vbus_in_mv = from_le16 (get_or buf 2 0) (get_or buf 3 0);
  vbus_out_mv = from_le16 (get_or buf 4 0) (get_or buf 5 0);
  ibus_out_ma = i16_of_bits (from_le16 (get_or buf 6 0) (get_or buf 7 0));
  vbat_mv = from_le16 (get_or buf 8 0) (get_or buf 9 0);
  ibat_ma = i16_of_bits (from_le16 (get_or buf 10 0) (get_or buf 11 0));
  temp_dc = i16_of_bits (from_le16 (get_or buf 12 0) (get_or buf 13 0));
  pd_contract_mv = from_le16 (get_or buf 14 0) (get_or buf 15 0);
  pd_contract_ma = from_le16 (get_or buf 16 0) (get_or buf 17 0);
  faults = from_le16 (get_or buf 18 0) (get_or buf 19 0);
}

unfoldable pub decode : List ℕ → Result PowerStatusV1 PayloadError
unfolding check_fixed_len check_version
decode buf = do check_fixed_len buf wire_len; check_version (get_or buf 0 0); ok (fields buf)

-- Decoding gives back every status whose fields fit their types, and its encoding has 20 bytes.
pub power_status_v1_round_trip :
    (p : PowerStatusV1) → InRange p → (decode (encode p) ≡ ok p) × (length (encode p) ≡ wire_len)
unfolding encode decode
power_status_v1_round_trip p h = (
  rw (
    le16 p.vbus_in_mv h.vbus_in_mv,
    le16 p.vbus_out_mv h.vbus_out_mv,
    le_i16 p.ibus_out_ma h.ibus_out_ma,
    le16 p.vbat_mv h.vbat_mv,
    le_i16 p.ibat_ma h.ibat_ma,
    le_i16 p.temp_dc h.temp_dc,
    le16 p.pd_contract_mv h.pd_contract_mv,
    le16 p.pd_contract_ma h.pd_contract_ma,
    le16 p.faults h.faults,
  ),
  refl,
)

encode-IsByte : (p : PowerStatusV1) → InRange p → All IsByte (encode p)
unfolding encode
encode-IsByte p h = ground arith

fields-InRange : (buf : List ℕ) → All IsByte buf → InRange (fields buf)
fields-InRange buf h = record {
  charge_state = u8_lt buf h 1;
  vbus_in_mv = u16_lt buf h 2;
  vbus_out_mv = u16_lt buf h 4;
  ibus_out_ma = signed_word buf h 6;
  vbat_mv = u16_lt buf h 8;
  ibat_ma = signed_word buf h 10;
  temp_dc = signed_word buf h 12;
  pd_contract_mv = u16_lt buf h 14;
  pd_contract_ma = u16_lt buf h 16;
  faults = u16_lt buf h 18;
}

decode_lem : (buf : List ℕ) → decode buf ≡ decode_fixed wire_len fields buf
unfolding decode check_fixed_len check_version
decode_lem buf = refl

abbrev pub codec : Codec
codec = fixed_codec wire_len fields InRange encode decode

pub codec-IsLawful : IsLawful codec
codec-IsLawful =
    fixed_codec-IsLawful wire_len fields InRange encode decode decode_lem power_status_v1_round_trip
      encode-IsByte fields-InRange
