-- ===== src/Proto/Payloads/NetStatusV1.antt =====
-- `net.status`: NetStatusV1 (src/proto/payloads.rs).
use web3_pi_ups_service.Prelude.{
  ℕ, All, arith, ◌<◌, ◌≡◌, refl, List, [], ◌∷◌, length, get_or, Result, ok, ◌>>◌,
}
use web3_pi_ups_service.Prelude.Int.{ℤ, IsI8, i8_of_bits, bits_of_i8, i8_of_bits-bits_of_i8}
use web3_pi_ups_service.Proto.{proto_version}
use web3_pi_ups_service.Proto.Payloads.Wire.{
  PayloadError, check_fixed_len, check_version, byte0, byte1, byte2, byte3, from_le16, from_le32,
  le16, le32,
}
use web3_pi_ups_service.Proto.Payloads.Wire.{signed_byte, u16_lt, u32_lt, u8_lt}
use web3_pi_ups_service.Proto.Frame.{IsByte}
use web3_pi_ups_service.Proto.Payloads.Codec.{
  Codec, IsLawful, fixed_codec, fixed_codec-IsLawful, decode_fixed,
}

pub record NetStatusV1 : Type 0 where
  pub state : ℕ
  pub rssi_dbm : ℤ
  pub rsrp_dbm : ℤ
  pub rsrq_db : ℤ
  pub errors : ℕ
  pub ip_addr : ℕ
  pub bytes_tx : ℕ
  pub bytes_rx : ℕ

-- The ranges of the fields' types.
pub record InRange (p : NetStatusV1) : Type 0 where
  pub state : p.state < 256
  pub rssi_dbm : IsI8 p.rssi_dbm
  pub rsrp_dbm : IsI8 p.rsrp_dbm
  pub rsrq_db : IsI8 p.rsrq_db
  pub errors : p.errors < 65536
  pub ip_addr : p.ip_addr < 4294967296
  pub bytes_tx : p.bytes_tx < 4294967296
  pub bytes_rx : p.bytes_rx < 4294967296

abbrev pub wire_len : ℕ
wire_len = 20

unfoldable pub encode : NetStatusV1 → List ℕ
encode p =
    proto_version
    ∷ p.state
    ∷ (bits_of_i8 p.rssi_dbm)
    ∷ (bits_of_i8 p.rsrp_dbm)
    ∷ (bits_of_i8 p.rsrq_db)
    ∷ 0
    ∷ (byte0 p.errors)
    ∷ (byte1 p.errors)
    ∷ (byte0 p.ip_addr)
    ∷ (byte1 p.ip_addr)
    ∷ (byte2 p.ip_addr)
    ∷ (byte3 p.ip_addr)
    ∷ (byte0 p.bytes_tx)
    ∷ (byte1 p.bytes_tx)
    ∷ (byte2 p.bytes_tx)
    ∷ (byte3 p.bytes_tx)
    ∷ (byte0 p.bytes_rx)
    ∷ (byte1 p.bytes_rx)
    ∷ (byte2 p.bytes_rx)
    ∷ (byte3 p.bytes_rx)
    ∷ []

-- The fields that `decode` reads when its checks pass.
abbrev pub fields : List ℕ → NetStatusV1
fields buf = record {
  state = get_or buf 1 0;
  rssi_dbm = i8_of_bits (get_or buf 2 0);
  rsrp_dbm = i8_of_bits (get_or buf 3 0);
  rsrq_db = i8_of_bits (get_or buf 4 0);
  errors = from_le16 (get_or buf 6 0) (get_or buf 7 0);
  ip_addr = from_le32 (get_or buf 8 0) (get_or buf 9 0) (get_or buf 10 0) (get_or buf 11 0);
  bytes_tx = from_le32 (get_or buf 12 0) (get_or buf 13 0) (get_or buf 14 0) (get_or buf 15 0);
  bytes_rx = from_le32 (get_or buf 16 0) (get_or buf 17 0) (get_or buf 18 0) (get_or buf 19 0);
}

unfoldable pub decode : List ℕ → Result NetStatusV1 PayloadError
unfolding check_fixed_len check_version
decode buf = do check_fixed_len buf wire_len; check_version (get_or buf 0 0); ok (fields buf)

pub net_status_v1_round_trip :
    (p : NetStatusV1) → InRange p → (decode (encode p) ≡ ok p) × (length (encode p) ≡ wire_len)
unfolding encode decode
net_status_v1_round_trip p h = (
  rw (
    i8_of_bits-bits_of_i8 p.rssi_dbm h.rssi_dbm,
    i8_of_bits-bits_of_i8 p.rsrp_dbm h.rsrp_dbm,
    i8_of_bits-bits_of_i8 p.rsrq_db h.rsrq_db,
    le16 p.errors h.errors,
    le32 p.ip_addr h.ip_addr,
    le32 p.bytes_tx h.bytes_tx,
    le32 p.bytes_rx h.bytes_rx,
  ),
  refl,
)

encode-IsByte : (p : NetStatusV1) → InRange p → All IsByte (encode p)
unfolding encode
encode-IsByte p h = ground arith

fields-InRange : (buf : List ℕ) → All IsByte buf → InRange (fields buf)
fields-InRange buf h = record {
  state = u8_lt buf h 1;
  rssi_dbm = signed_byte buf h 2;
  rsrp_dbm = signed_byte buf h 3;
  rsrq_db = signed_byte buf h 4;
  errors = u16_lt buf h 6;
  ip_addr = u32_lt buf h 8;
  bytes_tx = u32_lt buf h 12;
  bytes_rx = u32_lt buf h 16;
}

decode_lem : (buf : List ℕ) → decode buf ≡ decode_fixed wire_len fields buf
unfolding decode check_fixed_len check_version
decode_lem buf = refl

abbrev pub codec : Codec
codec = fixed_codec wire_len fields InRange encode decode

pub codec-IsLawful : IsLawful codec
codec-IsLawful =
    fixed_codec-IsLawful wire_len fields InRange encode decode decode_lem net_status_v1_round_trip
      encode-IsByte fields-InRange
