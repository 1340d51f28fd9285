-- ===== src/Proto.antt =====
-- The wire protocol (src/proto/mod.rs): framing constants and the catalogue of codes.
pub mod Addr
pub mod Class
pub mod Cap
pub mod Flag
pub mod Op
pub mod Fletcher
pub mod Frame
pub mod Deframer
pub mod Payloads
use web3_pi_ups_service.Prelude.{ℕ, ◌+◌}

abbrev pub proto_version : ℕ
proto_version = 1

abbrev pub sync1 : ℕ
sync1 = 0xaa

abbrev pub sync2 : ℕ
sync2 = 0x55

abbrev pub end1 : ℕ
end1 = 0x55

abbrev pub end2 : ℕ
end2 = 0xaa

abbrev pub header_bytes : ℕ
header_bytes = 10

abbrev pub trailer_bytes : ℕ
trailer_bytes = 4

abbrev pub framing_bytes : ℕ
framing_bytes = header_bytes + trailer_bytes

abbrev pub header_data_bytes : ℕ
header_data_bytes = 8

abbrev pub max_payload : ℕ
max_payload = 240

abbrev pub max_frame : ℕ
max_frame = framing_bytes + max_payload
