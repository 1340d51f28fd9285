-- ===== src/Examples/Wire.antt =====
-- The theorems on the wire format, the checksum, the deframer and the serial tasks at work.
use web3_pi_ups_service.Prelude.{
  ℕ, ◌+◌, zero, suc, ◌-◌, ◌≤◌, ◌≡◌, ◌≢◌, refl, not, ◌||◌, ◌==◌, if◌then◌else◌, List, [], ◌∷◌, ◌++◌,
  length, append-nil, map, take, ok, err, arith,
}
use web3_pi_ups_service.Examples.{tricky, ping, ping_bytes}
use web3_pi_ups_service.Proto.{max_payload, header_data_bytes, end1, end2}
use web3_pi_ups_service.Proto.Fletcher.{fletcher8, fletcher8_loop}
use web3_pi_ups_service.Proto.Fletcher.Detects.{fletcher8-changed_byte}
use web3_pi_ups_service.Proto.Frame.{
  Frame, bad_checksum, bad_end_marker, encoded_len, encode, decode, decode_body,
}
use web3_pi_ups_service.Proto.Frame.Wire.{body, wire}
use web3_pi_ups_service.Proto.Frame.RoundTrip.{decode-wire}
use web3_pi_ups_service.Proto.Frame.Inverse.{encode-decode}
use web3_pi_ups_service.Proto.Frame.Rejects.{with_trailer, decode-with_trailer, decode_damaged}
use web3_pi_ups_service.Proto.Deframer
use web3_pi_ups_service.Proto.Deframer.{State, Deframer, new, feed_slice}
use web3_pi_ups_service.Proto.Deframer.Invariant.{length-feed_slice}
use web3_pi_ups_service.Proto.Deframer.Sound.{Contains, frames, feed_slice_sound}
use web3_pi_ups_service.Proto.Deframer.Stream.{stream, feed_slice-decode, feed_slice-stream}
use web3_pi_ups_service.Transport.Serial.{bytes, waiting, reader_loop, writer_loop}
use web3_pi_ups_service.Transport.Serial.EndToEnd.{sendable, writer-reader}

feed_slice_sound_example :
    Contains (0 ∷ 170 ∷ ping_bytes) (frames (feed_slice new (0 ∷ 170 ∷ ping_bytes)).1)
feed_slice_sound_example = feed_slice_sound (0 ∷ 170 ∷ ping_bytes)

-- Noise, a frame, noise, a frame.
abbrev noisy : List (List ℕ × Frame)
noisy = (0 ∷ 85 ∷ [], tricky) ∷ (85 ∷ [], ping) ∷ []

feed_slice-stream_example : feed_slice new (stream noisy) ≡ (new, ok tricky ∷ ok ping ∷ [])
feed_slice-stream_example =
    feed_slice-stream noisy
      (((omega arith, (omega arith, tt)), omega arith), (((omega arith, tt), omega arith), tt))

ping_decodes : decode (ping_bytes ++ (9 ∷ [])) ≡ ok (ping, 14)
unfolding decode decode_body fletcher8 fletcher8_loop
ping_decodes = refl

feed_slice-decode_example : feed_slice new (take 14 (ping_bytes ++ (9 ∷ []))) ≡ (new, ok ping ∷ [])
feed_slice-decode_example = feed_slice-decode (ping_bytes ++ (9 ∷ [])) ping 14 ping_decodes

encode-decode_example : encode ping ≡ ok (take 14 (ping_bytes ++ (9 ∷ [])))
encode-decode_example = encode-decode (ping_bytes ++ (9 ∷ [])) ping 14 ping_decodes

decode-wire_example : decode (wire tricky ++ (1 ∷ [])) ≡ ok (tricky, encoded_len tricky)
decode-wire_example = decode-wire tricky (1 ∷ []) (omega arith)

decode-with_trailer_example : decode (with_trailer ping 7 48 85 85 []) ≡ (
    if not ((fletcher8 (body ping)).0 == 7) || not ((fletcher8 (body ping)).1 == 48)
    then err (bad_checksum (7, 48) (fletcher8 (body ping)))
    else if not (85 == end1) || not (85 == end2)
    then err bad_end_marker
    else ok (ping, encoded_len ping))
decode-with_trailer_example = decode-with_trailer ping 7 48 85 85 [] (omega arith)

-- The first payload byte 9 arrives as 8.
decode_damaged_example :
    decode (
      with_trailer
        (record ping { payload = 8 ∷ 3 ∷ [] })
        (fletcher8 (body (record ping { payload = 9 ∷ 3 ∷ [] }))).0
        (fletcher8 (body (record ping { payload = 9 ∷ 3 ∷ [] }))).1
        end1
        end2
        [])
    ≡ err (
        bad_checksum
          (fletcher8 (body (record ping { payload = 9 ∷ 3 ∷ [] })))
          (fletcher8 (body (record ping { payload = 8 ∷ 3 ∷ [] }))))
decode_damaged_example =
    decode_damaged ping [] (3 ∷ []) [] 9 8 (omega arith) (omega arith) (omega arith) (omega arith)

fletcher8-changed_byte_example : fletcher8 (1 ∷ 255 ∷ 3 ∷ []) ≢ fletcher8 (1 ∷ 0 ∷ 3 ∷ [])
fletcher8-changed_byte_example =
    fletcher8-changed_byte (1 ∷ []) (3 ∷ []) 255 0 (omega arith) (omega arith) (omega arith)

length-feed_slice_example :
    length (feed_slice new (take 9 ping_bytes)).0.buf ≤ header_data_bytes + max_payload + 2
length-feed_slice_example = length-feed_slice (take 9 ping_bytes)

-- 252 bytes of 0.
abbrev zeros : ℕ → List ℕ
zeros zero = []
zeros (suc n) = 0 ∷ zeros n

abbrev sent_frames : List Frame
sent_frames = ping ∷ record tricky { payload = zeros 241 } ∷ ping ∷ []

writer-reader_example :
    ((writer_loop sent_frames 3).0 ≡ waiting)
    × (reader_loop
          (map bytes ((writer_loop sent_frames 3).1 ∷ []))
          (record { deframer = Deframer.new; sink = []; room = 5 })
        ≡ (
          waiting,
          record {
            deframer = Deframer.new;
            sink = sendable sent_frames;
            room = 5 - length (sendable sent_frames);
          },
        ))
writer-reader_example =
    writer-reader sent_frames 3 ((writer_loop sent_frames 3).1 ∷ []) 5 (omega arith) (omega arith)
      (append-nil _)
