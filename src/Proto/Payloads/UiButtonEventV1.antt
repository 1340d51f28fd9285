-- ===== src/Proto/Payloads/UiButtonEventV1.antt =====
-- `ui.button_event`: UiButtonEventV1 (src/proto/payloads.rs).
use web3_pi_ups_service.Prelude.{
  ℕ, All, arith, ◌<◌, ◌≡◌, refl, List, [], ◌∷◌, length, get_or, Result, ok, ◌>>◌,
}
use web3_pi_ups_service.Proto.{proto_version}
use web3_pi_ups_service.Proto.Payloads.Wire.{PayloadError, check_fixed_len, check_version}
use web3_pi_ups_service.Proto.Payloads.Wire.{u8_lt}
use web3_pi_ups_service.Proto.Frame.{IsByte}
use web3_pi_ups_service.Proto.Payloads.Codec.{
  Codec, IsLawful, fixed_codec, fixed_codec-IsLawful, decode_fixed,
}

pub record UiButtonEventV1 : Type 0 where
  pub button : ℕ
  pub action : ℕ

-- The ranges of the fields' types.
pub record InRange (p : UiButtonEventV1) : Type 0 where
  pub button : p.button < 256
  pub action : p.action < 256

abbrev pub wire_len : ℕ
wire_len = 4

unfoldable pub encode : UiButtonEventV1 → List ℕ
encode p = proto_version ∷ p.button ∷ p.action ∷ 0 ∷ []

-- The fields that `decode` reads when its checks pass.
abbrev pub fields : List ℕ → UiButtonEventV1
fields buf = record { button = get_or buf 1 0; action = get_or buf 2 0 }

unfoldable pub decode : List ℕ → Result UiButtonEventV1 PayloadError
unfolding check_fixed_len check_version
decode buf = do check_fixed_len buf wire_len; check_version (get_or buf 0 0); ok (fields buf)

pub ui_button_event_v1_round_trip :
    (p : UiButtonEventV1) → InRange p → (decode (encode p) ≡ ok p) × (length (encode p) ≡ wire_len)
unfolding encode decode
ui_button_event_v1_round_trip p h = (refl, refl)

encode-IsByte : (p : UiButtonEventV1) → InRange p → All IsByte (encode p)
unfolding encode
encode-IsByte p h = ground arith

fields-InRange : (buf : List ℕ) → All IsByte buf → InRange (fields buf)
fields-InRange buf h = record { button = u8_lt buf h 1; action = u8_lt buf h 2 }

decode_lem : (buf : List ℕ) → decode buf ≡ decode_fixed wire_len fields buf
unfolding decode check_fixed_len check_version
decode_lem buf = refl

abbrev pub codec : Codec
codec = fixed_codec wire_len fields InRange encode decode

pub codec-IsLawful : IsLawful codec
codec-IsLawful =
    fixed_codec-IsLawful wire_len fields InRange encode decode decode_lem
      ui_button_event_v1_round_trip encode-IsByte fields-InRange
