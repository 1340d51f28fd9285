-- ===== src/Proto/Deframer.antt =====
-- The streaming frame parser (src/proto/deframer.rs). `feed` returns the parser's new state
-- and what the Rust method returns: `none` while more bytes are needed.
pub mod Invariant
pub mod Pending
pub mod Sound
pub mod Complete
pub mod Stream
pub mod Progress
pub mod Recovery
pub mod Typed
use web3_pi_ups_service.Prelude.{
  ℕ, ◌+◌, ◌≡◌, Bool, not, ◌||◌, ltb, ◌==◌, if◌then◌else◌, Option, none, some, List, [], ◌∷◌, ◌++◌,
  length, get_or, slice, take, Result, ok, err,
}
use web3_pi_ups_service.Proto
use web3_pi_ups_service.Proto.{header_data_bytes, max_payload}
use web3_pi_ups_service.Proto.Fletcher.{fletcher8}
use web3_pi_ups_service.Proto.Frame.{
  Frame, FrameError, payload_too_long, bad_end_marker, bad_checksum, from_le16,
}

pub data State : Type 0 where
  sync1 sync2 header payload ck_a ck_b end1 end2 : State

-- `buf` holds the eight header bytes, the payload and the checksum, without the sync bytes.
pub record Deframer : Type 0 where
  pub state : State
  pub buf : List ℕ
  pub payload_len : ℕ

abbrev pub Output : Type 0
Output = Option (Result Frame FrameError)

unfoldable pub new : Deframer
new = record { state = State.sync1; buf = []; payload_len = 0 }

unfoldable pub reset : Deframer → Deframer
reset d = record d { state = State.sync1; buf = []; payload_len = 0 }

unfoldable pub feed_sync1 : Deframer → ℕ → Deframer × Output
feed_sync1 d byte = (if byte == Proto.sync1 then record d { state = State.sync2 } else d, none)

-- A second 0xAA may be the real first sync byte, so the state stays.
unfoldable pub feed_sync2 : Deframer → ℕ → Deframer × Output
feed_sync2 d byte =
    if byte == Proto.sync2
    then (record d { buf = []; payload_len = 0; state = State.header }, none)
    else if byte == Proto.sync1
    then (d, none)
    else (record d { state = State.sync1 }, none)

unfoldable pub feed_header : Deframer → ℕ → Deframer × Output
unfolding reset
feed_header d byte =
    let buf = d.buf ++ (byte ∷ []) in
    let pushed = record d { buf = buf } in
    let len = from_le16 (get_or buf 6 0) (get_or buf 7 0) in
    if length buf == header_data_bytes
    then if ltb max_payload len then (reset pushed, some (err (payload_too_long len))) else (
      record pushed { payload_len = len; state = if len == 0 then State.ck_a else State.payload },
      none,
    )
    else (pushed, none)

unfoldable pub feed_payload : Deframer → ℕ → Deframer × Output
feed_payload d byte =
    let buf = d.buf ++ (byte ∷ []) in
    if length buf == header_data_bytes + d.payload_len
    then (record d { buf = buf; state = State.ck_a }, none)
    else (record d { buf = buf }, none)

unfoldable pub feed_ck_a : Deframer → ℕ → Deframer × Output
feed_ck_a d byte = (record d { buf = d.buf ++ (byte ∷ []); state = State.ck_b }, none)

unfoldable pub feed_ck_b : Deframer → ℕ → Deframer × Output
unfolding reset
feed_ck_b d byte =
    let buf = d.buf ++ (byte ∷ []) in
    let pushed = record d { buf = buf } in
    let payload_end = header_data_bytes + d.payload_len in
    let cka = get_or buf payload_end 0 in
    let ckb = get_or buf (payload_end + 1) 0 in
    let computed = fletcher8 (take payload_end buf) in
    if not (cka == computed.0) || not (ckb == computed.1)
    then (reset pushed, some (err (bad_checksum (cka, ckb) computed)))
    else (record pushed { state = State.end1 }, none)

unfoldable pub feed_end1 : Deframer → ℕ → Deframer × Output
unfolding reset
feed_end1 d byte =
    if byte == Proto.end1
    then (record d { state = State.end2 }, none)
    else (reset d, some (err bad_end_marker))

-- The frame read off the accumulated bytes.
unfoldable pub completed : Deframer → Frame
completed d = record {
  dst = get_or d.buf 0 0;
  src = get_or d.buf 1 0;
  class = get_or d.buf 2 0;
  op = get_or d.buf 3 0;
  flags = get_or d.buf 4 0;
  seq = get_or d.buf 5 0;
  payload = slice header_data_bytes (header_data_bytes + d.payload_len) d.buf;
}

unfoldable pub feed_end2 : Deframer → ℕ → Deframer × Output
unfolding reset completed
feed_end2 d byte =
    if byte == Proto.end2
    then (reset d, some (ok (completed d)))
    else (reset d, some (err bad_end_marker))

-- The `match self.state` of `feed`.
unfoldable pub dispatch : State → Deframer → ℕ → Deframer × Output
dispatch State.sync1 d byte = feed_sync1 d byte
dispatch State.sync2 d byte = feed_sync2 d byte
dispatch State.header d byte = feed_header d byte
dispatch State.payload d byte = feed_payload d byte
dispatch State.ck_a d byte = feed_ck_a d byte
dispatch State.ck_b d byte = feed_ck_b d byte
dispatch State.end1 d byte = feed_end1 d byte
dispatch State.end2 d byte = feed_end2 d byte

unfoldable pub feed : Deframer → ℕ → Deframer × Output
unfolding dispatch
feed d byte = dispatch d.state d byte

-- What a `sink` that pushes onto a vector receives for one byte.
abbrev pub push_result : Output → List (Result Frame FrameError) → List (Result Frame FrameError)
push_result none rs = rs
push_result (some r) rs = r ∷ rs

-- `feed_slice` with the results handed to the sink, in order.
unfoldable pub feed_slice : Deframer → List ℕ → Deframer × List (Result Frame FrameError)
feed_slice d [] = (d, [])
feed_slice d (byte ∷ bytes) =
    let fed = feed d byte in let rest = feed_slice fed.0 bytes in (rest.0, push_result fed.1 rest.1)
