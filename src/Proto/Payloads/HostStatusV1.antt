-- ===== src/Proto/Payloads/HostStatusV1.antt =====
-- `host.status`: HostStatusV1 (src/proto/payloads.rs).
use web3_pi_ups_service.Prelude.{
  ℕ, All, arith, ◌<◌, ◌≡◌, refl, List, [], ◌∷◌, length, get_or, Result, ok, ◌>>◌,
}
use web3_pi_ups_service.Prelude.Int.{ℤ, IsI16, i16_of_bits, bits_of_i16}
use web3_pi_ups_service.Proto.{proto_version}
use web3_pi_ups_service.Proto.Payloads.Wire.{
  PayloadError, check_fixed_len, check_version, byte0, byte1, byte2, byte3, from_le16, from_le32,
  le16, le32, le_i16,
}
use web3_pi_ups_service.Proto.Payloads.Wire.{signed_word, u16_lt, u32_lt, u8_lt}
use web3_pi_ups_service.Proto.Frame.{IsByte}
use web3_pi_ups_service.Proto.Payloads.Codec.{
  Codec, IsLawful, fixed_codec, fixed_codec-IsLawful, decode_fixed,
}

pub record HostStatusV1 : Type 0 where
  pub eth_client_state : ℕ
  pub cpu_temp_dc : ℤ
  pub mem_used_pct : ℕ
  pub disk_used_pct : ℕ
  pub load_avg_x100 : ℕ
  pub uptime_s : ℕ

-- The ranges of the fields' types.
pub record InRange (p : HostStatusV1) : Type 0 where
  pub eth_client_state : p.eth_client_state < 256
  pub cpu_temp_dc : IsI16 p.cpu_temp_dc
  pub mem_used_pct : p.mem_used_pct < 256
  pub disk_used_pct : p.disk_used_pct < 256
  pub load_avg_x100 : p.load_avg_x100 < 65536
  pub uptime_s : p.uptime_s < 4294967296

abbrev pub wire_len : ℕ
wire_len = 12

unfoldable pub encode : HostStatusV1 → List ℕ
encode p =
    proto_version
    ∷ p.eth_client_state
    ∷ (byte0 (bits_of_i16 p.cpu_temp_dc))
    ∷ (byte1 (bits_of_i16 p.cpu_temp_dc))
    ∷ p.mem_used_pct
    ∷ p.disk_used_pct
    ∷ (byte0 p.load_avg_x100)
    ∷ (byte1 p.load_avg_x100)
    ∷ (byte0 p.uptime_s)
    ∷ (byte1 p.uptime_s)
    ∷ (byte2 p.uptime_s)
    ∷ (byte3 p.uptime_s)
    ∷ []

-- The fields that `decode` reads when its checks pass.
abbrev pub fields : List ℕ → HostStatusV1
fields buf = record {
  eth_client_state = get_or buf 1 0;
  cpu_temp_dc = i16_of_bits (from_le16 (get_or buf 2 0) (get_or buf 3 0));
  mem_used_pct = get_or buf 4 0;
  disk_used_pct = get_or buf 5 0;
  load_avg_x100 = from_le16 (get_or buf 6 0) (get_or buf 7 0);
  uptime_s = from_le32 (get_or buf 8 0) (get_or buf 9 0) (get_or buf 10 0) (get_or buf 11 0);
}

unfoldable pub decode : List ℕ → Result HostStatusV1 PayloadError
unfolding check_fixed_len check_version
decode buf = do check_fixed_len buf wire_len; check_version (get_or buf 0 0); ok (fields buf)

pub host_status_v1_round_trip :
    (p : HostStatusV1) → InRange p → (decode (encode p) ≡ ok p) × (length (encode p) ≡ wire_len)
unfolding encode decode
host_status_v1_round_trip p h = (
  rw (
    le_i16 p.cpu_temp_dc h.cpu_temp_dc,
    le16 p.load_avg_x100 h.load_avg_x100,
    le32 p.uptime_s h.uptime_s,
  ),
  refl,
)

pub encode-IsByte : (p : HostStatusV1) → InRange p → All IsByte (encode p)
unfolding encode
encode-IsByte p h = ground arith

fields-InRange : (buf : List ℕ) → All IsByte buf → InRange (fields buf)
fields-InRange buf h = record {
  eth_client_state = u8_lt buf h 1;
  cpu_temp_dc = signed_word buf h 2;
  mem_used_pct = u8_lt buf h 4;
  disk_used_pct = u8_lt buf h 5;
  load_avg_x100 = u16_lt buf h 6;
  uptime_s = u32_lt buf h 8;
}

decode_lem : (buf : List ℕ) → decode buf ≡ decode_fixed wire_len fields buf
unfolding decode check_fixed_len check_version
decode_lem buf = refl

abbrev pub codec : Codec
codec = fixed_codec wire_len fields InRange encode decode

pub codec-IsLawful : IsLawful codec
codec-IsLawful =
    fixed_codec-IsLawful wire_len fields InRange encode decode decode_lem host_status_v1_round_trip
      encode-IsByte fields-InRange
