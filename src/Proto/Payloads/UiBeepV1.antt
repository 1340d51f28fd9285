-- ===== src/Proto/Payloads/UiBeepV1.antt =====
-- `ui.beep REQ`: UiBeepV1 (src/proto/payloads.rs).
use web3_pi_ups_service.Prelude.{
  ℕ, All, arith, ◌<◌, ◌≡◌, refl, List, [], ◌∷◌, length, get_or, Result, ok, ◌>>◌,
}
use web3_pi_ups_service.Proto.{proto_version}
use web3_pi_ups_service.Proto.Payloads.Wire.{
  PayloadError, check_fixed_len, check_version, byte0, byte1, from_le16, le16,
}
use web3_pi_ups_service.Proto.Payloads.Wire.{u16_lt}
use web3_pi_ups_service.Proto.Frame.{IsByte}
use web3_pi_ups_service.Proto.Payloads.Codec.{
  Codec, IsLawful, fixed_codec, fixed_codec-IsLawful, decode_fixed,
}

pub record UiBeepV1 : Type 0 where
  pub freq_hz : ℕ
  pub dur_ms : ℕ

-- The ranges of the fields' types.
pub record InRange (p : UiBeepV1) : Type 0 where
  pub freq_hz : p.freq_hz < 65536
  pub dur_ms : p.dur_ms < 65536

abbrev pub wire_len : ℕ
wire_len = 6

unfoldable pub encode : UiBeepV1 → List ℕ
encode p =
    proto_version
    ∷ 0
    ∷ (byte0 p.freq_hz)
    ∷ (byte1 p.freq_hz)
    ∷ (byte0 p.dur_ms)
    ∷ (byte1 p.dur_ms)
    ∷ []

-- The fields that `decode` reads when its checks pass.
abbrev pub fields : List ℕ → UiBeepV1
fields buf = record {
  freq_hz = from_le16 (get_or buf 2 0) (get_or buf 3 0);
  dur_ms = from_le16 (get_or buf 4 0) (get_or buf 5 0);
}

unfoldable pub decode : List ℕ → Result UiBeepV1 PayloadError
unfolding check_fixed_len check_version
decode buf = do check_fixed_len buf wire_len; check_version (get_or buf 0 0); ok (fields buf)

pub ui_beep_v1_round_trip :
    (p : UiBeepV1) → InRange p → (decode (encode p) ≡ ok p) × (length (encode p) ≡ wire_len)
unfolding encode decode
ui_beep_v1_round_trip p h = (rw (le16 p.freq_hz h.freq_hz, le16 p.dur_ms h.dur_ms), refl)

encode-IsByte : (p : UiBeepV1) → InRange p → All IsByte (encode p)
unfolding encode
encode-IsByte p h = ground arith

fields-InRange : (buf : List ℕ) → All IsByte buf → InRange (fields buf)
fields-InRange buf h = record { freq_hz = u16_lt buf h 2; dur_ms = u16_lt buf h 4 }

decode_lem : (buf : List ℕ) → decode buf ≡ decode_fixed wire_len fields buf
unfolding decode check_fixed_len check_version
decode_lem buf = refl

abbrev pub codec : Codec
codec = fixed_codec wire_len fields InRange encode decode

pub codec-IsLawful : IsLawful codec
codec-IsLawful =
    fixed_codec-IsLawful wire_len fields InRange encode decode decode_lem ui_beep_v1_round_trip
      encode-IsByte fields-InRange
