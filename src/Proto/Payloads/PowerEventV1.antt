-- ===== src/Proto/Payloads/PowerEventV1.antt =====
-- `power.event`: PowerEventV1 (src/proto/payloads.rs).
use web3_pi_ups_service.Prelude.{
  ℕ, All, arith, ◌<◌, ◌≡◌, refl, List, [], ◌∷◌, length, get_or, Result, ok, ◌>>◌,
}
use web3_pi_ups_service.Proto.{proto_version}
use web3_pi_ups_service.Proto.Payloads.Wire.{PayloadError, check_fixed_len, check_version}
use web3_pi_ups_service.Proto.Payloads.Wire.{u8_lt}
use web3_pi_ups_service.Proto.Frame.{IsByte}
use web3_pi_ups_service.Proto.Payloads.Codec.{
  Codec, IsLawful, fixed_codec, fixed_codec-IsLawful, decode_fixed,
}

pub record PowerEventV1 : Type 0 where
  pub event : ℕ

-- The ranges of the fields' types.
pub record InRange (p : PowerEventV1) : Type 0 where
  pub event : p.event < 256

abbrev pub wire_len : ℕ
wire_len = 2

unfoldable pub encode : PowerEventV1 → List ℕ
encode p = proto_version ∷ p.event ∷ []

-- The fields that `decode` reads when its checks pass.
abbrev pub fields : List ℕ → PowerEventV1
fields buf = record { event = get_or buf 1 0 }

unfoldable pub decode : List ℕ → Result PowerEventV1 PayloadError
unfolding check_fixed_len check_version
decode buf = do check_fixed_len buf wire_len; check_version (get_or buf 0 0); ok (fields buf)

pub power_event_v1_round_trip :
    (p : PowerEventV1) → InRange p → (decode (encode p) ≡ ok p) × (length (encode p) ≡ wire_len)
unfolding encode decode
power_event_v1_round_trip p h = (refl, refl)

encode-IsByte : (p : PowerEventV1) → InRange p → All IsByte (encode p)
unfolding encode
encode-IsByte p h = ground arith

fields-InRange : (buf : List ℕ) → All IsByte buf → InRange (fields buf)
fields-InRange buf h = record { event = u8_lt buf h 1 }

decode_lem : (buf : List ℕ) → decode buf ≡ decode_fixed wire_len fields buf
unfolding decode check_fixed_len check_version
decode_lem buf = refl

abbrev pub codec : Codec
codec = fixed_codec wire_len fields InRange encode decode

pub codec-IsLawful : IsLawful codec
codec-IsLawful =
    fixed_codec-IsLawful wire_len fields InRange encode decode decode_lem power_event_v1_round_trip
      encode-IsByte fields-InRange
