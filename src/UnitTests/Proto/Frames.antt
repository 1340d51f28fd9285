-- ===== src/UnitTests/Proto/Frames.antt =====
-- The tests of encoding and decoding (src/proto/frame.rs, module tests).
use web3_pi_ups_service.Prelude.{◌≡◌, refl, ◌+◌, ◌>>=◌, [], ◌∷◌, length, ok}
use web3_pi_ups_service.Proto.{framing_bytes, max_payload}
use web3_pi_ups_service.Proto.Addr
use web3_pi_ups_service.Proto.Class
use web3_pi_ups_service.Proto.Flag
use web3_pi_ups_service.Proto.Op
use web3_pi_ups_service.Proto.Fletcher.{fletcher8, fletcher8_loop}
use web3_pi_ups_service.Proto.Frame
use web3_pi_ups_service.Proto.Frame.{encode, decode, decode_body}
use web3_pi_ups_service.UnitTests.Payloads.Texts.{repeated}
use web3_pi_ups_service.UnitTests.Proto.{ping_req, ping_bytes, status_frame, or_empty}

abbrev EncodeMatchesSpecExample : Type 0
EncodeMatchesSpecExample =
    (encode ping_req
      ≡ ok (
          0xaa ∷ 0x55 ∷ 0x03 ∷ 0x01 ∷ 0x01 ∷ 0x01 ∷ 0x01 ∷ 0x42 ∷ 0x00 ∷ 0x00 ∷ 0x49 ∷ 0xf4 ∷ 0x55
          ∷ 0xaa ∷ []))
    × (length ping_bytes ≡ framing_bytes)

encode_matches_spec_example : EncodeMatchesSpecExample
unfolding encode fletcher8 fletcher8_loop
encode_matches_spec_example = (refl, refl)

abbrev EmptyPayloadRoundTrip : Type 0
EmptyPayloadRoundTrip = decode ping_bytes ≡ ok (ping_req, length ping_bytes)

empty_payload_round_trip : EmptyPayloadRoundTrip
unfolding encode decode decode_body fletcher8 fletcher8_loop
empty_payload_round_trip = refl

abbrev PayloadRoundTrip : Type 0
PayloadRoundTrip =
    let bytes = or_empty (encode status_frame) in
    (length bytes ≡ framing_bytes + 20) × (decode bytes ≡ ok (status_frame, length bytes))

payload_round_trip : PayloadRoundTrip
unfolding encode decode decode_body fletcher8 fletcher8_loop
payload_round_trip = (refl, refl)

abbrev full_frame : Frame.Frame
full_frame = record {
  dst = Addr.rp2040;
  src = Addr.esp32;
  class = Class.net;
  op = Op.Net.publish;
  flags = Flag.req;
  seq = 0;
  payload = repeated 0xab max_payload;
}

abbrev MaxPayloadRoundTrip : Type 0
MaxPayloadRoundTrip =
    encode full_frame >>= decode ≡ ok (full_frame, length (or_empty (encode full_frame)))

max_payload_round_trip : MaxPayloadRoundTrip
unfolding encode decode decode_body fletcher8 fletcher8_loop
max_payload_round_trip = refl
