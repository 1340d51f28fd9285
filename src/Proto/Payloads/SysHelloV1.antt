-- ===== src/Proto/Payloads/SysHelloV1.antt =====
-- `system.hello EVENT`: SysHelloV1 (src/proto/payloads.rs).
use web3_pi_ups_service.Prelude.{
  ℕ, All, arith, ◌<◌, ◌≡◌, refl, List, [], ◌∷◌, length, get_or, Result, ok, ◌>>◌,
}
use web3_pi_ups_service.Proto
use web3_pi_ups_service.Proto.Payloads.Wire.{
  PayloadError, check_fixed_len, check_version, byte0, byte1, byte2, byte3, from_le16, from_le32,
  le16, le32,
}
use web3_pi_ups_service.Proto.Payloads.Wire.{u16_lt, u32_lt, u8_lt}
use web3_pi_ups_service.Proto.Frame.{IsByte}
use web3_pi_ups_service.Proto.Payloads.Codec.{
  Codec, IsLawful, fixed_codec, fixed_codec-IsLawful, decode_fixed,
}

pub record SysHelloV1 : Type 0 where
  pub proto_version : ℕ
  pub node_addr : ℕ
  pub fw_version : ℕ
  pub caps_classes : ℕ
  pub build_id : ℕ

-- The ranges of the fields' types.
pub record InRange (p : SysHelloV1) : Type 0 where
  pub proto_version : p.proto_version < 256
  pub node_addr : p.node_addr < 256
  pub fw_version : p.fw_version < 65536
  pub caps_classes : p.caps_classes < 65536
  pub build_id : p.build_id < 4294967296

abbrev pub wire_len : ℕ
wire_len = 12

unfoldable pub encode : SysHelloV1 → List ℕ
encode p =
    Proto.proto_version
    ∷ p.proto_version
    ∷ p.node_addr
    ∷ 0
    ∷ (byte0 p.fw_version)
    ∷ (byte1 p.fw_version)
    ∷ (byte0 p.caps_classes)
    ∷ (byte1 p.caps_classes)
    ∷ (byte0 p.build_id)
    ∷ (byte1 p.build_id)
    ∷ (byte2 p.build_id)
    ∷ (byte3 p.build_id)
    ∷ []

-- The fields that `decode` reads when its checks pass.
abbrev pub fields : List ℕ → SysHelloV1
fields buf = record {
  proto_version = get_or buf 1 0;
  node_addr = get_or buf 2 0;
  fw_version = from_le16 (get_or buf 4 0) (get_or buf 5 0);
  caps_classes = from_le16 (get_or buf 6 0) (get_or buf 7 0);
  build_id = from_le32 (get_or buf 8 0) (get_or buf 9 0) (get_or buf 10 0) (get_or buf 11 0);
}

unfoldable pub decode : List ℕ → Result SysHelloV1 PayloadError
unfolding check_fixed_len check_version
decode buf = do check_fixed_len buf wire_len; check_version (get_or buf 0 0); ok (fields buf)

pub sys_hello_v1_round_trip :
    (p : SysHelloV1) → InRange p → (decode (encode p) ≡ ok p) × (length (encode p) ≡ wire_len)
unfolding encode decode
sys_hello_v1_round_trip p h = (
  rw (
    le16 p.fw_version h.fw_version,
    le16 p.caps_classes h.caps_classes,
    le32 p.build_id h.build_id,
  ),
  refl,
)

encode-IsByte : (p : SysHelloV1) → InRange p → All IsByte (encode p)
unfolding encode
encode-IsByte p h = ground arith

fields-InRange : (buf : List ℕ) → All IsByte buf → InRange (fields buf)
fields-InRange buf h = record {
  proto_version = u8_lt buf h 1;
  node_addr = u8_lt buf h 2;
  fw_version = u16_lt buf h 4;
  caps_classes = u16_lt buf h 6;
  build_id = u32_lt buf h 8;
}

decode_lem : (buf : List ℕ) → decode buf ≡ decode_fixed wire_len fields buf
unfolding decode check_fixed_len check_version
decode_lem buf = refl

abbrev pub codec : Codec
codec = fixed_codec wire_len fields InRange encode decode

pub codec-IsLawful : IsLawful codec
codec-IsLawful =
    fixed_codec-IsLawful wire_len fields InRange encode decode decode_lem sys_hello_v1_round_trip
      encode-IsByte fields-InRange
