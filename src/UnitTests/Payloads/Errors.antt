-- ===== src/UnitTests/Payloads/Errors.antt =====
-- The tests of what is rejected (src/proto/payloads.rs, module tests).
use web3_pi_ups_service.Prelude.{refl, ◌+◌, ◌-◌, Bool, false, ◌==◌, ◌∷◌, ascii, drop}
use web3_pi_ups_service.Proto.{proto_version}
use web3_pi_ups_service.Proto.Payloads.HostServiceRestartV1
use web3_pi_ups_service.Proto.Payloads.HostStatusV1
use web3_pi_ups_service.Proto.Payloads.NetPublishV1
use web3_pi_ups_service.Proto.Payloads.PowerStatusV1
use web3_pi_ups_service.Proto.Payloads.SysLogV1
use web3_pi_ups_service.Proto.Payloads.Wire.{
  PayloadError, unsupported_version, check_fixed_len, check_version,
}
use web3_pi_ups_service.UnitTests.Payloads.{IsErr, is_unexpected_length, is_length_mismatch}
use web3_pi_ups_service.UnitTests.Payloads.Texts.{repeated}

abbrev DecodeRejectsWrongLength : Type 0
DecodeRejectsWrongLength =
    IsErr is_unexpected_length (PowerStatusV1.decode (repeated 0 (PowerStatusV1.wire_len - 1)))
    × IsErr is_unexpected_length (HostStatusV1.decode (repeated 0 (HostStatusV1.wire_len + 5)))

decode_rejects_wrong_length : DecodeRejectsWrongLength
unfolding PowerStatusV1.decode HostStatusV1.decode check_fixed_len
decode_rejects_wrong_length = (refl, refl)

-- `UnsupportedVersion { got: 99, .. }`
abbrev got_99 : PayloadError → Bool
got_99 (unsupported_version got expected) = got == 99
got_99 _ = false

abbrev DecodeRejectsUnsupportedVersion : Type 0
DecodeRejectsUnsupportedVersion =
    let bytes = 99 ∷ drop 1 (repeated 0 PowerStatusV1.wire_len) in
    IsErr got_99 (PowerStatusV1.decode bytes)

decode_rejects_unsupported_version : DecodeRejectsUnsupportedVersion
unfolding PowerStatusV1.decode check_fixed_len check_version
decode_rejects_unsupported_version = refl

abbrev SysLogDecodeRejectsTruncatedText : Type 0
SysLogDecodeRejectsTruncatedText =
    let bytes = proto_version ∷ 2 ∷ 10 ∷ 0 ∷ ascii "abc" in
    IsErr is_length_mismatch (SysLogV1.decode bytes)

sys_log_decode_rejects_truncated_text : SysLogDecodeRejectsTruncatedText
unfolding SysLogV1.decode check_version
sys_log_decode_rejects_truncated_text = refl

abbrev NetPublishDecodeRejectsTruncatedPayload : Type 0
NetPublishDecodeRejectsTruncatedPayload =
    let bytes = proto_version ∷ 0 ∷ 0 ∷ 3 ∷ 10 ∷ 0 ∷ ascii "top" in
    IsErr is_length_mismatch (NetPublishV1.decode bytes)

net_publish_decode_rejects_truncated_payload : NetPublishDecodeRejectsTruncatedPayload
unfolding NetPublishV1.decode check_version
net_publish_decode_rejects_truncated_payload = refl

abbrev HostServiceRestartRejectsTruncatedUnit : Type 0
HostServiceRestartRejectsTruncatedUnit =
    let bytes = proto_version ∷ 10 ∷ 0 ∷ 0 ∷ ascii "ab" in
    IsErr is_length_mismatch (HostServiceRestartV1.decode bytes)

host_service_restart_rejects_truncated_unit : HostServiceRestartRejectsTruncatedUnit
unfolding HostServiceRestartV1.decode check_version
host_service_restart_rejects_truncated_unit = refl
