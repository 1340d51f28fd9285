-- ===== src/Proto/Payloads/Kinds.antt =====
-- The payloads with an encoder and a decoder (src/proto/payloads.rs), as one family.
use web3_pi_ups_service.Prelude.{◌≡◌, ◌↔◌, List, ℕ, All, Result, ok}
use web3_pi_ups_service.Proto.Frame.{IsByte}
use web3_pi_ups_service.Proto.Payloads.SysPongV1
use web3_pi_ups_service.Proto.Payloads.SysHelloV1
use web3_pi_ups_service.Proto.Payloads.SysLogV1
use web3_pi_ups_service.Proto.Payloads.PowerStatusV1
use web3_pi_ups_service.Proto.Payloads.PowerCycleV1
use web3_pi_ups_service.Proto.Payloads.PowerEventV1
use web3_pi_ups_service.Proto.Payloads.NetStatusV1
use web3_pi_ups_service.Proto.Payloads.NetPublishV1
use web3_pi_ups_service.Proto.Payloads.NetTimeSyncV1
use web3_pi_ups_service.Proto.Payloads.HostStatusV1
use web3_pi_ups_service.Proto.Payloads.HostShutdownV1
use web3_pi_ups_service.Proto.Payloads.HostEventV1
use web3_pi_ups_service.Proto.Payloads.HostServiceRestartV1
use web3_pi_ups_service.Proto.Payloads.UiButtonEventV1
use web3_pi_ups_service.Proto.Payloads.UiSetScreenV1
use web3_pi_ups_service.Proto.Payloads.UiBeepV1
use web3_pi_ups_service.Proto.Payloads.UiDisplayMsgV1
use web3_pi_ups_service.Proto.Payloads.Wire.{PayloadError}
use web3_pi_ups_service.Proto.Payloads.Codec.{Codec, IsLawful}

pub data Kind : Type 0 where
  sys_pong : Kind
  sys_hello : Kind
  sys_log : Kind
  power_status : Kind
  power_cycle : Kind
  power_event : Kind
  net_status : Kind
  net_publish : Kind
  net_time_sync : Kind
  host_status : Kind
  host_shutdown : Kind
  host_event : Kind
  host_service_restart : Kind
  ui_button_event : Kind
  ui_set_screen : Kind
  ui_beep : Kind
  ui_display_msg : Kind

abbrev pub codec : Kind → Codec
codec sys_pong = SysPongV1.codec
codec sys_hello = SysHelloV1.codec
codec sys_log = SysLogV1.codec
codec power_status = PowerStatusV1.codec
codec power_cycle = PowerCycleV1.codec
codec power_event = PowerEventV1.codec
codec net_status = NetStatusV1.codec
codec net_publish = NetPublishV1.codec
codec net_time_sync = NetTimeSyncV1.codec
codec host_status = HostStatusV1.codec
codec host_shutdown = HostShutdownV1.codec
codec host_event = HostEventV1.codec
codec host_service_restart = HostServiceRestartV1.codec
codec ui_button_event = UiButtonEventV1.codec
codec ui_set_screen = UiSetScreenV1.codec
codec ui_beep = UiBeepV1.codec
codec ui_display_msg = UiDisplayMsgV1.codec

codec-IsLawful : (k : Kind) → IsLawful (codec k)
codec-IsLawful sys_pong = SysPongV1.codec-IsLawful
codec-IsLawful sys_hello = SysHelloV1.codec-IsLawful
codec-IsLawful sys_log = SysLogV1.codec-IsLawful
codec-IsLawful power_status = PowerStatusV1.codec-IsLawful
codec-IsLawful power_cycle = PowerCycleV1.codec-IsLawful
codec-IsLawful power_event = PowerEventV1.codec-IsLawful
codec-IsLawful net_status = NetStatusV1.codec-IsLawful
codec-IsLawful net_publish = NetPublishV1.codec-IsLawful
codec-IsLawful net_time_sync = NetTimeSyncV1.codec-IsLawful
codec-IsLawful host_status = HostStatusV1.codec-IsLawful
codec-IsLawful host_shutdown = HostShutdownV1.codec-IsLawful
codec-IsLawful host_event = HostEventV1.codec-IsLawful
codec-IsLawful host_service_restart = HostServiceRestartV1.codec-IsLawful
codec-IsLawful ui_button_event = UiButtonEventV1.codec-IsLawful
codec-IsLawful ui_set_screen = UiSetScreenV1.codec-IsLawful
codec-IsLawful ui_beep = UiBeepV1.codec-IsLawful
codec-IsLawful ui_display_msg = UiDisplayMsgV1.codec-IsLawful

abbrev pub Payload : Kind → Type 0
Payload k = (codec k).Payload

abbrev pub InRange : (k : Kind) → Payload k → Type 0
InRange k = (codec k).InRange

abbrev pub Fits : (k : Kind) → Payload k → Type 0
Fits k = (codec k).Fits

abbrev pub Holds : Kind → List ℕ → Type 0
Holds k = (codec k).Holds

abbrev pub encode_payload : (k : Kind) → Payload k → Result (List ℕ) PayloadError
encode_payload k = (codec k).encode

abbrev pub decode_payload : (k : Kind) → List ℕ → Result (Payload k) PayloadError
decode_payload k = (codec k).decode

-- Of every kind of payload with an encoder, a value whose fields are in the ranges of their types
-- and whose texts, unit name, topic and message are within the limits has an encoding; it is made
-- of bytes, and decoding gives the value back.
pub payload_round_trip :
    (k : Kind) (p : Payload k)
    → InRange k p
    → Fits k p
    → (buf : List ℕ) × (encode_payload k p ≡ ok buf)
      × All IsByte buf
      × (decode_payload k buf ≡ ok p)
payload_round_trip k = (codec-IsLawful k).encode-decode

-- Every kind of payload is encoded only within these limits.
pub encode_payload-Fits :
    (k : Kind) (p : Payload k) (buf : List ℕ) → encode_payload k p ≡ ok buf → Fits k p
encode_payload-Fits k = (codec-IsLawful k).encode-Fits

-- Whatever bytes a payload of any kind is decoded from, each of its fields is in the range of its
-- type.
pub decode_payload-InRange :
    (k : Kind) (buf : List ℕ) (p : Payload k)
    → All IsByte buf
    → decode_payload k buf ≡ ok p
    → InRange k p
decode_payload-InRange k = (codec-IsLawful k).decode-InRange

-- For every kind of payload a buffer is decoded exactly if it holds one: a payload of a fixed
-- length needs exactly that length, one with a header the header and the lengths that it
-- declares, and both need the protocol version in the first byte.
pub decode_payload-Holds_iff :
    (k : Kind) (buf : List ℕ) → ((p : Payload k) × (decode_payload k buf ≡ ok p)) ↔ Holds k buf
decode_payload-Holds_iff k buf =
    (λ (p, e). (codec-IsLawful k).decode-Holds buf p e, (codec-IsLawful k).Holds-decode buf)
