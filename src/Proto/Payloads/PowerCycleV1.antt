-- ===== src/Proto/Payloads/PowerCycleV1.antt =====
-- `power.cycle REQ`: PowerCycleV1 (src/proto/payloads.rs).
use web3_pi_ups_service.Prelude.{
  ℕ, All, arith, ◌<◌, ◌≡◌, refl, List, [], ◌∷◌, length, get_or, Result, ok, ◌>>◌,
}
use web3_pi_ups_service.Proto.{proto_version}
use web3_pi_ups_service.Proto.Payloads.Wire.{
  PayloadError, check_fixed_len, check_version, byte0, byte1, from_le16, le16,
}
use web3_pi_ups_service.Proto.Payloads.Wire.{u16_lt}
use web3_pi_ups_service.Proto.Frame.{IsByte}
use web3_pi_ups_service.Proto.Payloads.Codec.{
  Codec, IsLawful, fixed_codec, fixed_codec-IsLawful, decode_fixed,
}

pub record PowerCycleV1 : Type 0 where
  pub off_ms : ℕ

-- The ranges of the fields' types.
pub record InRange (p : PowerCycleV1) : Type 0 where
  pub off_ms : p.off_ms < 65536

abbrev pub wire_len : ℕ
wire_len = 4

unfoldable pub encode : PowerCycleV1 → List ℕ
encode p = proto_version ∷ 0 ∷ (byte0 p.off_ms) ∷ (byte1 p.off_ms) ∷ []

-- The fields that `decode` reads when its checks pass.
abbrev pub fields : List ℕ → PowerCycleV1
fields buf = record { off_ms = from_le16 (get_or buf 2 0) (get_or buf 3 0) }

unfoldable pub decode : List ℕ → Result PowerCycleV1 PayloadError
unfolding check_fixed_len check_version
decode buf = do check_fixed_len buf wire_len; check_version (get_or buf 0 0); ok (fields buf)

pub power_cycle_v1_round_trip :
    (p : PowerCycleV1) → InRange p → (decode (encode p) ≡ ok p) × (length (encode p) ≡ wire_len)
unfolding encode decode
power_cycle_v1_round_trip p h = (rw (le16 p.off_ms h.off_ms), refl)

encode-IsByte : (p : PowerCycleV1) → InRange p → All IsByte (encode p)
unfolding encode
encode-IsByte p h = ground arith

fields-InRange : (buf : List ℕ) → All IsByte buf → InRange (fields buf)
fields-InRange buf h = record { off_ms = u16_lt buf h 2 }

decode_lem : (buf : List ℕ) → decode buf ≡ decode_fixed wire_len fields buf
unfolding decode check_fixed_len check_version
decode_lem buf = refl

abbrev pub codec : Codec
codec = fixed_codec wire_len fields InRange encode decode

pub codec-IsLawful : IsLawful codec
codec-IsLawful =
    fixed_codec-IsLawful wire_len fields InRange encode decode decode_lem power_cycle_v1_round_trip
      encode-IsByte fields-InRange
