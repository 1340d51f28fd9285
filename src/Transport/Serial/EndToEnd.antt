-- ===== src/Transport/Serial/EndToEnd.antt =====
-- From the writer task of one side to the reader task of the other (src/transport/serial.rs).
use web3_pi_ups_service.Prelude.{
  ℕ, zero, suc, ◌-◌, ◌≤◌, ◌≡◌, refl, ap, ◌∙◌, true, ltb, if◌then◌else◌, List, [], ◌∷◌, ◌++◌, length,
  flatten, map, Bool-cases, inl, inr, ok, err, arith,
}
use web3_pi_ups_service.Proto.{max_payload}
use web3_pi_ups_service.Proto.Frame.{Frame, payload_too_long, encode_into, encode}
use web3_pi_ups_service.Proto.Frame.Wire.{wire, encode_ok}
use web3_pi_ups_service.Proto.Deframer
use web3_pi_ups_service.Proto.Deframer.{Deframer, feed_slice}
use web3_pi_ups_service.Proto.Deframer.Sound.{frames}
use web3_pi_ups_service.Proto.Deframer.Stream.{stream, IsStream, feed_slice-stream}
use web3_pi_ups_service.Transport.Serial.{
  bytes, Exit, waiting, inbound_closed, Reader, feed_chunk, reader_loop, write_frame, writer_loop,
}
use web3_pi_ups_service.Transport.Serial.Chunks.{after, feed_chunk-after, reader_loop_chunks}

-- The frames whose payload the wire format can carry.
abbrev pub sendable : List Frame → List Frame
sendable [] = []
sendable (f ∷ fs) =
    let rest = sendable fs in if ltb max_payload (length f.payload) then rest else f ∷ rest

-- Such frames as a stream without noise.
abbrev quietly : List Frame → List (List ℕ × Frame)
quietly [] = []
quietly (f ∷ fs) = ([], f) ∷ quietly fs

length-sendable : (fs : List Frame) → length (sendable fs) ≤ length fs
length-sendable [] = omega arith
length-sendable (f ∷ fs) = ground (arith, length-sendable fs)

sendable-IsStream : (fs : List Frame) → IsStream (quietly (sendable fs))
sendable-IsStream [] = tt
sendable-IsStream (f ∷ fs) = elim (Bool-cases (ltb max_payload (length f.payload))) [
  | inl long ↦ rw long (sendable-IsStream fs)
  | inr short ↦ rw short ((tt, ground arith), sendable-IsStream fs)
]

quietly-frames : (fs : List Frame) → frames (map (λ item. ok item.1) (quietly fs)) ≡ fs
quietly-frames [] = refl
quietly-frames (f ∷ fs) = ap (λ t. f ∷ t) (quietly-frames fs)

too_long_unsent :
    (f : Frame)
    → ltb max_payload (length f.payload) ≡ true
    → encode f ≡ err (payload_too_long (length f.payload))
unfolding encode encode_into
too_long_unsent f h = rw h

-- One completed write in front of a run that is known.
write_one :
    {n : ℕ} (bs rest : List ℕ) (k : ℕ → Exit × List ℕ) (writes : ℕ)
    → suc n ≤ writes
    → ((left : ℕ) → n ≤ left → k left ≡ (waiting, rest))
    → write_frame (ok bs) writes k ≡ (waiting, bs ++ rest)
unfolding write_frame
write_one bs rest k zero h run = absurd (omega arith)
write_one bs rest k (suc left) h run = rw (run left (omega arith))

-- With a write for every frame, the writer puts the encodings of the frames that the format can
-- carry on the wire, in order, skips the others, and goes on waiting.
pub writer_loop-wire :
    (fs : List Frame) (writes : ℕ)
    → length fs ≤ writes
    → writer_loop fs writes ≡ (waiting, stream (quietly (sendable fs)))
unfolding writer_loop
writer_loop-wire [] writes h = refl
writer_loop-wire (f ∷ fs) writes h = elim (Bool-cases (ltb max_payload (length f.payload))) [
  | inl long ↦
      rw (long, too_long_unsent f long)
        (unfold write_frame in writer_loop-wire fs writes (omega arith))
  | inr short ↦
      let fits : length f.payload ≤ max_payload = ground arith in
      rw (short, encode_ok f fits)
        (write_one (wire f) _ (writer_loop fs) writes h (λ left. writer_loop-wire fs left))
]

-- What the writer puts on the wire for some frames, with a write for each, reaches a new reader
-- at the other end as exactly those of the frames that the format can carry, in order, in
-- whatever chunks the bytes arrive, where its channel has room for them. Both tasks are then
-- still waiting.
pub writer-reader :
    (fs : List Frame) (writes : ℕ) (chunks : List (List ℕ)) (room : ℕ)
    → length fs ≤ writes
    → length (sendable fs) ≤ room
    → flatten chunks ≡ (writer_loop fs writes).1
    → ((writer_loop fs writes).0 ≡ waiting)
      × (reader_loop (map bytes chunks) (record { deframer = Deframer.new; sink = []; room = room })
          ≡ (
            waiting,
            record {
              deframer = Deframer.new;
              sink = sendable fs;
              room = room - length (sendable fs);
            },
          ))
writer-reader fs writes chunks room enough space cut =
    let run = writer_loop-wire fs writes enough in
    let sent = sendable fs in
    let reader : Reader = record { deframer = Deframer.new; sink = []; room = room } in
    let fed : feed_slice Deframer.new (flatten chunks)
        ≡ (Deframer.new, map (λ item. ok item.1) (quietly sent)) =
      rw (cut, run) (feed_slice-stream (quietly sent) (sendable-IsStream fs)) in
    let heard : frames (feed_slice Deframer.new (flatten chunks)).1 ≡ sent =
      ap (λ t. frames t.1) fed ∙ quietly-frames sent in
    let all : feed_chunk (flatten chunks) reader ≡ (after (flatten chunks) reader, true) =
      feed_chunk-after (flatten chunks) reader (rw heard space) in
    (
      ap (λ t. t.0) run,
      reader_loop_chunks chunks reader
          ∙ ap (λ t. if t.1 then (waiting, t.0) else (inbound_closed, t.0)) all
          ∙ (λ i. (
            waiting,
            record { deframer = (fed i).0; sink = heard i; room = room - length (heard i) },
          )),
    )
