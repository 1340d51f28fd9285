-- ===== src/Examples/Line.antt =====
-- The theorem on both directions of the serial line at work.
use web3_pi_ups_service.Prelude.{
  ℕ, zero, suc, ◌++◌, ok, ◌≡◌, refl, List, [], ◌∷◌, append-nil, ascii, arith,
}
use web3_pi_ups_service.Examples.{at_second, handler, ping}
use web3_pi_ups_service.Dispatcher.{dispatch_loop}
use web3_pi_ups_service.Dispatcher.Isolation.{IsIsolated}
use web3_pi_ups_service.Proto.Deframer
use web3_pi_ups_service.Proto.Deframer.{Deframer, feed_slice}
use web3_pi_ups_service.Proto.Deframer.Invariant.{new-IsWellFormed, feed_slice-IsWellFormed}
use web3_pi_ups_service.Proto.Deframer.Recovery.{feed_slice_recovers}
use web3_pi_ups_service.Proto.Deframer.Sound.{frames}
use web3_pi_ups_service.Proto.Deframer.Stream.{IsNoise}
use web3_pi_ups_service.Proto.Frame.Wire.{wire}
use web3_pi_ups_service.Dispatcher.Replies.{replies}
use web3_pi_ups_service.Proto.Frame.{Frame}
use web3_pi_ups_service.State
use web3_pi_ups_service.Transport.Serial.{Read, bytes, failed, Reader, reader_loop, writer_loop}
use web3_pi_ups_service.Transport.Serial.Conversation.{
  heard, meet, serve, heard-serve, dispatch_loop-reader_loop,
}
use web3_pi_ups_service.Transport.Serial.EndToEnd.{sendable}

-- A request to restart geth, and a reset request.
abbrev restart : Frame
restart = record {
  dst = 1;
  src = 2;
  class = 4;
  op = 4;
  flags = 1;
  seq = 9;
  payload = 1 ∷ 4 ∷ 0 ∷ 0 ∷ ascii "geth";
}

abbrev requests : List Frame
requests = restart ∷ ping ∷ record restart { op = 3; seq = 10; payload = [] } ∷ []

abbrev there : List (List ℕ)
there = (writer_loop requests 3).1 ∷ []

abbrev back : List (List ℕ)
back = (writer_loop (serve handler at_second State.new (heard there 3)) 3).1 ∷ []

heard-serve_example : heard back 3 ≡ replies handler (meet at_second (sendable requests))
heard-serve_example =
    heard-serve handler at_second State.new requests there back 3 3 3 (omega arith) (omega arith)
      (append-nil (writer_loop requests 3).1) (λ n. refl) (omega arith)
      (append-nil (writer_loop (serve handler at_second State.new (heard there 3)) 3).1)

-- Noise, the requests, and an error of the port.
abbrev reads : List Read
reads = bytes (7 ∷ 170 ∷ 3 ∷ []) ∷ bytes (writer_loop requests 3).1 ∷ failed ∷ []

abbrev fresh : Reader
fresh = record { deframer = Deframer.new; sink = []; room = 64 }

dispatch_loop-reader_loop_example :
    IsIsolated handler State.new
      (dispatch_loop handler (meet at_second (reader_loop reads fresh).1.sink) State.new)
dispatch_loop-reader_loop_example =
    dispatch_loop-reader_loop handler at_second State.new reads fresh

-- The header of a frame that was cut off.
abbrev cut_off : Deframer
cut_off = (feed_slice Deframer.new (170 ∷ 85 ∷ 1 ∷ 2 ∷ [])).0

abbrev zeros : ℕ → List ℕ
zeros zero = []
zeros (suc n) = 0 ∷ zeros n

zeros-IsNoise : (n : ℕ) → IsNoise (zeros n)
zeros-IsNoise zero = tt
zeros-IsNoise (suc n) = (omega arith, zeros-IsNoise n)

feed_slice_recovers_example :
    (frames (feed_slice cut_off (zeros 253)).1 ≡ [])
    × (feed_slice cut_off (zeros 253 ++ wire restart)
        ≡ (Deframer.new, (feed_slice cut_off (zeros 253)).1 ++ (ok restart ∷ [])))
feed_slice_recovers_example =
    feed_slice_recovers cut_off (zeros 253) restart
      (feed_slice-IsWellFormed Deframer.new (170 ∷ 85 ∷ 1 ∷ 2 ∷ []) new-IsWellFormed)
      (zeros-IsNoise 253) (omega arith) (omega arith)
