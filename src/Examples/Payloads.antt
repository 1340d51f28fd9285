-- ===== src/Examples/Payloads.antt =====
-- The theorems on all kinds of payloads at work.
use web3_pi_ups_service.Prelude.{ℕ, ◌≡◌, ◌↔◌, refl, All, List, [], ◌∷◌, ascii, ok, arith}
use web3_pi_ups_service.Prelude.Int.{negsuc}
use web3_pi_ups_service.Proto.Frame.{IsByte}
use web3_pi_ups_service.Proto.Payloads.HostStatusV1
use web3_pi_ups_service.Proto.Payloads.NetPublishV1.{NetPublishV1}
use web3_pi_ups_service.Proto.Payloads.Wire.{check_fixed_len, check_version}
use web3_pi_ups_service.Proto.Payloads.Kinds.{
  host_status, net_publish, Payload, Holds, encode_payload, decode_payload, payload_round_trip,
  decode_payload-Holds_iff,
}

abbrev message : NetPublishV1
message = record { qos = 1; retain = 0; topic = ascii "ups"; payload = 222 ∷ 173 ∷ [] }

payload_round_trip_example :
    (buf : List ℕ) × (encode_payload net_publish message ≡ ok buf)
    × All IsByte buf
    × (decode_payload net_publish buf ≡ ok message)
payload_round_trip_example =
    payload_round_trip net_publish message
      (record {
        qos = omega arith;
        retain = omega arith;
        topic = (omega arith, (omega arith, (omega arith, tt)));
        payload = (omega arith, (omega arith, tt));
      })
      (omega arith, omega arith)

-- A status with a temperature of -0.2 degrees.
abbrev status_bytes : List ℕ
status_bytes = 1 ∷ 21 ∷ 254 ∷ 255 ∷ 42 ∷ 71 ∷ 125 ∷ 0 ∷ 0 ∷ 163 ∷ 2 ∷ 0 ∷ []

abbrev status : Payload host_status
status = record {
  eth_client_state = 21;
  cpu_temp_dc = negsuc 1;
  mem_used_pct = 42;
  disk_used_pct = 71;
  load_avg_x100 = 125;
  uptime_s = 172800;
}

status_decodes : decode_payload host_status status_bytes ≡ ok status
unfolding HostStatusV1.decode check_fixed_len check_version
status_decodes = refl

decode_payload-Holds_iff_example :
    ((p : Payload host_status) × (decode_payload host_status status_bytes ≡ ok p))
    ↔ Holds host_status status_bytes
decode_payload-Holds_iff_example = decode_payload-Holds_iff host_status status_bytes
