-- ===== src/UnitTests/Proto.antt =====
-- What the tests of frames and deframer share (src/proto/frame.rs and deframer.rs, modules tests).
pub mod Frames
pub mod RejectedFrames
pub mod Fletcher
pub mod Streams
pub mod DamagedStreams
use web3_pi_ups_service.Prelude.{
  ℕ, zero, suc, ◌≡◌, Bool, true, false, List, [], ◌∷◌, ◌++◌, Result, ok, err,
}
use web3_pi_ups_service.Proto.Addr
use web3_pi_ups_service.Proto.Class
use web3_pi_ups_service.Proto.Flag
use web3_pi_ups_service.Proto.Op
use web3_pi_ups_service.Proto.Frame.{Frame, FrameError, encode, payload_too_long, bad_checksum}

abbrev pub ping_req : Frame
ping_req = record {
  dst = Addr.ch32x;
  src = Addr.rpi;
  class = Class.system;
  op = Op.System.ping;
  flags = Flag.req;
  seq = 0x42;
  payload = [];
}

-- `(a..a + n).collect()`
abbrev pub counted : ℕ → ℕ → List ℕ
counted a zero = []
counted a (suc n) = a ∷ counted (suc a) n

abbrev pub status_frame : Frame
status_frame = record {
  dst = Addr.rpi;
  src = Addr.ch32x;
  class = Class.power;
  op = Op.Power.status;
  flags = Flag.event;
  seq = 7;
  payload = counted 0 20;
}

-- `encode().unwrap()`, which panics on an error.
abbrev pub or_empty : Result (List ℕ) FrameError → List ℕ
or_empty (ok bytes) = bytes
or_empty (err e) = []

abbrev pub ping_bytes : List ℕ
unfolding encode
ping_bytes = or_empty (encode ping_req)

-- `bytes[i] = f(bytes[i])`, within the bytes.
abbrev pub changed : ℕ → (ℕ → ℕ) → List ℕ → List ℕ
changed i f [] = []
changed zero f (b ∷ bytes) = f b ∷ bytes
changed (suc i) f (b ∷ bytes) = b ∷ changed i f bytes

abbrev pub is_payload_too_long : FrameError → Bool
is_payload_too_long (payload_too_long n) = true
is_payload_too_long _ = false

abbrev pub is_bad_checksum : FrameError → Bool
is_bad_checksum (bad_checksum expected computed) = true
is_bad_checksum _ = false

-- `matches!(r, Err(..))`, for the errors that pass a test.
abbrev pub is_err : {A : Type 0} → (FrameError → Bool) → Result A FrameError → Bool
is_err test (ok a) = false
is_err test (err e) = test e
