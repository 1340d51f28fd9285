-- ===== src/Proto/Payloads/NetTimeSyncV1.antt =====
-- `net.time_sync`: NetTimeSyncV1 (src/proto/payloads.rs).
use web3_pi_ups_service.Prelude.{
  ℕ, All, arith, ◌<◌, ◌≡◌, refl, List, [], ◌∷◌, length, get_or, Result, ok, ◌>>◌,
}
use web3_pi_ups_service.Proto.{proto_version}
use web3_pi_ups_service.Proto.Payloads.Wire.{
  PayloadError, check_fixed_len, check_version, byte0, byte1, byte2, byte3, from_le16, from_le32,
  le16, le32,
}
use web3_pi_ups_service.Proto.Payloads.Wire.{u16_lt, u32_lt}
use web3_pi_ups_service.Proto.Frame.{IsByte}
use web3_pi_ups_service.Proto.Payloads.Codec.{
  Codec, IsLawful, fixed_codec, fixed_codec-IsLawful, decode_fixed,
}

pub record NetTimeSyncV1 : Type 0 where
  pub ms_frac : ℕ
  pub unix_s : ℕ

-- The ranges of the fields' types.
pub record InRange (p : NetTimeSyncV1) : Type 0 where
  pub ms_frac : p.ms_frac < 65536
  pub unix_s : p.unix_s < 4294967296

abbrev pub wire_len : ℕ
wire_len = 8

unfoldable pub encode : NetTimeSyncV1 → List ℕ
encode p =
    proto_version
    ∷ 0
    ∷ (byte0 p.ms_frac)
    ∷ (byte1 p.ms_frac)
    ∷ (byte0 p.unix_s)
    ∷ (byte1 p.unix_s)
    ∷ (byte2 p.unix_s)
    ∷ (byte3 p.unix_s)
    ∷ []

-- The fields that `decode` reads when its checks pass.
abbrev pub fields : List ℕ → NetTimeSyncV1
fields buf = record {
  ms_frac = from_le16 (get_or buf 2 0) (get_or buf 3 0);
  unix_s = from_le32 (get_or buf 4 0) (get_or buf 5 0) (get_or buf 6 0) (get_or buf 7 0);
}

unfoldable pub decode : List ℕ → Result NetTimeSyncV1 PayloadError
unfolding check_fixed_len check_version
decode buf = do check_fixed_len buf wire_len; check_version (get_or buf 0 0); ok (fields buf)

pub net_time_sync_v1_round_trip :
    (p : NetTimeSyncV1) → InRange p → (decode (encode p) ≡ ok p) × (length (encode p) ≡ wire_len)
unfolding encode decode
net_time_sync_v1_round_trip p h = (rw (le16 p.ms_frac h.ms_frac, le32 p.unix_s h.unix_s), refl)

encode-IsByte : (p : NetTimeSyncV1) → InRange p → All IsByte (encode p)
unfolding encode
encode-IsByte p h = ground arith

fields-InRange : (buf : List ℕ) → All IsByte buf → InRange (fields buf)
fields-InRange buf h = record { ms_frac = u16_lt buf h 2; unix_s = u32_lt buf h 4 }

decode_lem : (buf : List ℕ) → decode buf ≡ decode_fixed wire_len fields buf
unfolding decode check_fixed_len check_version
decode_lem buf = refl

abbrev pub codec : Codec
codec = fixed_codec wire_len fields InRange encode decode

pub codec-IsLawful : IsLawful codec
codec-IsLawful =
    fixed_codec-IsLawful wire_len fields InRange encode decode decode_lem
      net_time_sync_v1_round_trip encode-IsByte fields-InRange
