-- ===== src/UnitTests/Payloads/Texts.antt =====
-- The tests of the payloads with texts (src/proto/payloads.rs, module tests).
use web3_pi_ups_service.Prelude.{
  ◌≡◌, refl, ◌+◌, ◌>>=◌, ℕ, zero, suc, List, [], ◌∷◌, length, ascii, ok,
}
use web3_pi_ups_service.Proto.Payloads.HostServiceRestartV1
use web3_pi_ups_service.Proto.Payloads.HostServiceRestartV1.{HostServiceRestartV1}
use web3_pi_ups_service.Proto.Payloads.NetPublishV1
use web3_pi_ups_service.Proto.Payloads.NetPublishV1.{NetPublishV1}
use web3_pi_ups_service.Proto.Payloads.SysLogV1
use web3_pi_ups_service.Proto.Payloads.SysLogV1.{SysLogV1}
use web3_pi_ups_service.Proto.Payloads.UiDisplayMsgV1
use web3_pi_ups_service.Proto.Payloads.UiDisplayMsgV1.{UiDisplayMsgV1}
use web3_pi_ups_service.Proto.Payloads.Wire.{check_version}
use web3_pi_ups_service.UnitTests.Payloads.{IsErr, is_invalid_value}

abbrev SysLogRoundTripWithText : Type 0
SysLogRoundTripWithText =
    let log : SysLogV1 = record { level = 3; text = ascii "hello world" } in
    let bytes = SysLogV1.encode log in
    (bytes >>= (λ b. ok (length b)) ≡ ok (SysLogV1.header_len + 11))
    × (bytes >>= SysLogV1.decode ≡ ok log)

sys_log_round_trip_with_text : SysLogRoundTripWithText
unfolding SysLogV1.encode SysLogV1.decode check_version
sys_log_round_trip_with_text = (refl, refl)

abbrev SysLogEmptyText : Type 0
SysLogEmptyText =
    let log : SysLogV1 = record { level = 0; text = [] } in
    SysLogV1.encode log >>= SysLogV1.decode ≡ ok log

sys_log_empty_text : SysLogEmptyText
unfolding SysLogV1.encode SysLogV1.decode check_version
sys_log_empty_text = refl

abbrev NetPublishRoundTripWithTopicAndPayload : Type 0
NetPublishRoundTripWithTopicAndPayload =
    let msg : NetPublishV1 = record {
      qos = 1;
      retain = 0;
      topic = ascii "ups/123/telemetry";
      payload = 0xde ∷ 0xad ∷ 0xbe ∷ 0xef ∷ [];
    } in
    NetPublishV1.encode msg >>= NetPublishV1.decode ≡ ok msg

net_publish_round_trip_with_topic_and_payload : NetPublishRoundTripWithTopicAndPayload
unfolding NetPublishV1.encode NetPublishV1.decode check_version
net_publish_round_trip_with_topic_and_payload = refl

-- `vec![x; n]`
abbrev pub repeated : ℕ → ℕ → List ℕ
repeated x zero = []
repeated x (suc n) = x ∷ repeated x n

abbrev NetPublishTopicTooLongRejected : Type 0
NetPublishTopicTooLongRejected = IsErr is_invalid_value (
    NetPublishV1.encode (record {
      qos = 0;
      retain = 0;
      topic = repeated 120 (NetPublishV1.max_topic_len + 1);
      payload = [];
    }))

net_publish_topic_too_long_rejected : NetPublishTopicTooLongRejected
unfolding NetPublishV1.encode
net_publish_topic_too_long_rejected = refl

abbrev HostServiceRestartRoundTrip : Type 0
HostServiceRestartRoundTrip =
    let r : HostServiceRestartV1 = record { unit = ascii "w3p_geth" } in
    HostServiceRestartV1.encode r >>= HostServiceRestartV1.decode ≡ ok r

host_service_restart_round_trip : HostServiceRestartRoundTrip
unfolding HostServiceRestartV1.encode HostServiceRestartV1.decode check_version
host_service_restart_round_trip = refl

abbrev UiDisplayMsgRoundTrip : Type 0
UiDisplayMsgRoundTrip =
    let msg : UiDisplayMsgV1 = record { line = 2; text = ascii "BATTERY LOW" } in
    UiDisplayMsgV1.encode msg >>= UiDisplayMsgV1.decode ≡ ok msg

ui_display_msg_round_trip : UiDisplayMsgRoundTrip
unfolding UiDisplayMsgV1.encode UiDisplayMsgV1.decode check_version
ui_display_msg_round_trip = refl
