-- ===== src/Proto/Payloads/HostShutdownV1.antt =====
-- `host.shutdown and host.reset REQ`: HostShutdownV1 (src/proto/payloads.rs).
use web3_pi_ups_service.Prelude.{
  ℕ, All, arith, ◌<◌, ◌≡◌, refl, List, [], ◌∷◌, length, get_or, Result, ok, ◌>>◌,
}
use web3_pi_ups_service.Proto.{proto_version}
use web3_pi_ups_service.Proto.Payloads.Wire.{
  PayloadError, check_fixed_len, check_version, byte0, byte1, from_le16, le16,
}
use web3_pi_ups_service.Proto.Payloads.Wire.{u16_lt, u8_lt}
use web3_pi_ups_service.Proto.Frame.{IsByte}
use web3_pi_ups_service.Proto.Payloads.Codec.{
  Codec, IsLawful, fixed_codec, fixed_codec-IsLawful, decode_fixed,
}

pub record HostShutdownV1 : Type 0 where
  pub reason : ℕ
  pub delay_s : ℕ

-- The ranges of the fields' types.
pub record InRange (p : HostShutdownV1) : Type 0 where
  pub reason : p.reason < 256
  pub delay_s : p.delay_s < 65536

abbrev pub wire_len : ℕ
wire_len = 4

unfoldable pub encode : HostShutdownV1 → List ℕ
encode p = proto_version ∷ p.reason ∷ (byte0 p.delay_s) ∷ (byte1 p.delay_s) ∷ []

-- The fields that `decode` reads when its checks pass.
abbrev pub fields : List ℕ → HostShutdownV1
fields buf = record {
  reason = get_or buf 1 0;
  delay_s = from_le16 (get_or buf 2 0) (get_or buf 3 0);
}

unfoldable pub decode : List ℕ → Result HostShutdownV1 PayloadError
unfolding check_fixed_len check_version
decode buf = do check_fixed_len buf wire_len; check_version (get_or buf 0 0); ok (fields buf)

pub host_shutdown_v1_round_trip :
    (p : HostShutdownV1) → InRange p → (decode (encode p) ≡ ok p) × (length (encode p) ≡ wire_len)
unfolding encode decode
host_shutdown_v1_round_trip p h = (rw (le16 p.delay_s h.delay_s), refl)

encode-IsByte : (p : HostShutdownV1) → InRange p → All IsByte (encode p)
unfolding encode
encode-IsByte p h = ground arith

fields-InRange : (buf : List ℕ) → All IsByte buf → InRange (fields buf)
fields-InRange buf h = record { reason = u8_lt buf h 1; delay_s = u16_lt buf h 2 }

decode_lem : (buf : List ℕ) → decode buf ≡ decode_fixed wire_len fields buf
unfolding decode check_fixed_len check_version
decode_lem buf = refl

abbrev pub codec : Codec
codec = fixed_codec wire_len fields InRange encode decode

pub codec-IsLawful : IsLawful codec
codec-IsLawful =
    fixed_codec-IsLawful wire_len fields InRange encode decode decode_lem
      host_shutdown_v1_round_trip encode-IsByte fields-InRange
