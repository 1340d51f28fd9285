-- ===== src/Transport/Serial.antt =====
-- The reader and writer tasks of the serial port (src/transport/serial.rs). What the port yields
-- and what the channels carry are lists; a task's run over a list that ends is still waiting.
pub mod Chunks
pub mod EndToEnd
pub mod Conversation
use web3_pi_ups_service.Prelude.{
  ℕ, zero, suc, Bool, true, false, if◌then◌else◌, Option, none, some, List, [], ◌∷◌, ◌++◌, Result,
  ok, err,
}
use web3_pi_ups_service.Proto.Deframer
use web3_pi_ups_service.Proto.Deframer.{Deframer, Output}
use web3_pi_ups_service.Proto.Frame
use web3_pi_ups_service.Proto.Frame.{Frame, FrameError}

-- `rd.read(&mut buf).await`: end of file (`Ok(0)`), some bytes, or an error.
pub data Read : Type 0 where
  eof : Read
  bytes : List ℕ → Read
  failed : Read

pub data Exit : Type 0 where
  waiting saw_eof read_error inbound_closed write_error : Exit

-- `room` is the number of frames that the inbound channel takes before its receiver is gone.
pub record Reader : Type 0 where
  pub deframer : Deframer
  pub sink : List Frame
  pub room : ℕ

-- A task's state after some bytes, and whether it goes on.
abbrev pub Progress : Type 0
Progress = Reader × Bool

-- `sink.send(frame).await.is_err()`
unfoldable pub offer : ℕ → Frame → Reader → Progress
offer zero frame r = (r, false)
offer (suc left) frame r = (record r { sink = r.sink ++ (frame ∷ []); room = left }, true)

-- What the reader does with the result for one byte; a parse error is only logged.
unfoldable pub deliver : Output → Reader → Progress
unfolding offer
deliver none r = (r, true)
deliver (some (err e)) r = (r, true)
deliver (some (ok frame)) r = offer r.room frame r

unfoldable pub feed_byte : ℕ → Reader → Progress
unfolding deliver
feed_byte b r =
    let fed = Deframer.feed r.deframer b in deliver fed.1 (record r { deframer = fed.0 })

-- The loop over `&buf[..n]`.
unfoldable pub feed_chunk : List ℕ → Reader → Progress
feed_chunk [] r = (r, true)
feed_chunk (b ∷ bs) r =
    let first = feed_byte b r in let rest = feed_chunk bs first.0 in if first.1 then rest else first

-- The outer loop, over what the port yields.
unfoldable pub reader_loop : List Read → Reader → Exit × Reader
reader_loop [] r = (waiting, r)
reader_loop (eof ∷ reads) r = (saw_eof, r)
reader_loop (failed ∷ reads) r = (read_error, r)
reader_loop (bytes bs ∷ reads) r =
    let chunk = feed_chunk bs r in
    let rest = reader_loop reads chunk.0 in if chunk.1 then rest else (inbound_closed, chunk.0)

-- One outbound frame, with `k` the run over the frames behind it by the writes left.
unfoldable pub write_frame : Result (List ℕ) FrameError → ℕ → (ℕ → Exit × List ℕ) → Exit × List ℕ
write_frame (err e) writes k = k writes
write_frame (ok bs) zero k = (write_error, [])
write_frame (ok bs) (suc writes) k = let rest = k writes in (rest.0, bs ++ rest.1)

-- The loop over the outbound frames; `writes` is the number of writes that succeed. The bytes
-- are those of the writes that were completed.
unfoldable pub writer_loop : List Frame → ℕ → Exit × List ℕ
unfolding write_frame
writer_loop [] writes = (waiting, [])
writer_loop (f ∷ fs) writes = write_frame (Frame.encode f) writes (writer_loop fs)
