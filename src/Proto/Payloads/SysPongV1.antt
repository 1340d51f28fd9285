-- ===== src/Proto/Payloads/SysPongV1.antt =====
-- `system.ping RESP`: SysPongV1 (src/proto/payloads.rs).
use web3_pi_ups_service.Prelude.{
  ℕ, All, arith, ◌<◌, ◌≡◌, refl, List, [], ◌∷◌, length, get_or, Result, ok, ◌>>◌,
}
use web3_pi_ups_service.Proto.{proto_version}
use web3_pi_ups_service.Proto.Payloads.Wire.{
  PayloadError, check_fixed_len, check_version, byte0, byte1, byte2, byte3, from_le16, from_le32,
  le16, le32,
}
use web3_pi_ups_service.Proto.Payloads.Wire.{u16_lt, u32_lt}
use web3_pi_ups_service.Proto.Frame.{IsByte}
use web3_pi_ups_service.Proto.Payloads.Codec.{
  Codec, IsLawful, fixed_codec, fixed_codec-IsLawful, decode_fixed,
}

pub record SysPongV1 : Type 0 where
  pub fw_version : ℕ
  pub uptime_ms : ℕ

-- The ranges of the fields' types.
pub record InRange (p : SysPongV1) : Type 0 where
  pub fw_version : p.fw_version < 65536
  pub uptime_ms : p.uptime_ms < 4294967296

abbrev pub wire_len : ℕ
wire_len = 8

unfoldable pub encode : SysPongV1 → List ℕ
encode p =
    proto_version
    ∷ 0
    ∷ (byte0 p.fw_version)
    ∷ (byte1 p.fw_version)
    ∷ (byte0 p.uptime_ms)
    ∷ (byte1 p.uptime_ms)
    ∷ (byte2 p.uptime_ms)
    ∷ (byte3 p.uptime_ms)
    ∷ []

-- The fields that `decode` reads when its checks pass.
abbrev pub fields : List ℕ → SysPongV1
fields buf = record {
  fw_version = from_le16 (get_or buf 2 0) (get_or buf 3 0);
  uptime_ms = from_le32 (get_or buf 4 0) (get_or buf 5 0) (get_or buf 6 0) (get_or buf 7 0);
}

unfoldable pub decode : List ℕ → Result SysPongV1 PayloadError
unfolding check_fixed_len check_version
decode buf = do check_fixed_len buf wire_len; check_version (get_or buf 0 0); ok (fields buf)

pub sys_pong_v1_round_trip :
    (p : SysPongV1) → InRange p → (decode (encode p) ≡ ok p) × (length (encode p) ≡ wire_len)
unfolding encode decode
sys_pong_v1_round_trip p h =
    (rw (le16 p.fw_version h.fw_version, le32 p.uptime_ms h.uptime_ms), refl)

encode-IsByte : (p : SysPongV1) → InRange p → All IsByte (encode p)
unfolding encode
encode-IsByte p h = ground arith

fields-InRange : (buf : List ℕ) → All IsByte buf → InRange (fields buf)
fields-InRange buf h = record { fw_version = u16_lt buf h 2; uptime_ms = u32_lt buf h 4 }

decode_lem : (buf : List ℕ) → decode buf ≡ decode_fixed wire_len fields buf
unfolding decode check_fixed_len check_version
decode_lem buf = refl

abbrev pub codec : Codec
codec = fixed_codec wire_len fields InRange encode decode

pub codec-IsLawful : IsLawful codec
codec-IsLawful =
    fixed_codec-IsLawful wire_len fields InRange encode decode decode_lem sys_pong_v1_round_trip
      encode-IsByte fields-InRange
