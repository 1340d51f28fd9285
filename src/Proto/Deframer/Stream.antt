-- ===== src/Proto/Deframer/Stream.antt =====
-- Whole frames and streams of frames through the deframer (src/proto/deframer.rs).
use web3_pi_ups_service.Prelude.{
  ℕ, suc, ◌+◌, ◌-◌, ◌/◌, ◌%◌, ◌≤◌, ◌≡◌, ◌≢◌, ◌⊎◌, inl, refl, ap, ◌∙◌, false, List, [], ◌∷◌, ◌++◌,
  ◌==◌, if◌then◌else◌, length, take, take-append_length, All, map, ok, arith,
}
use web3_pi_ups_service.Proto
use web3_pi_ups_service.Proto.{max_payload}
use web3_pi_ups_service.Proto.Fletcher.{fletcher8}
use web3_pi_ups_service.Proto.Frame.{Frame, decode}
use web3_pi_ups_service.Proto.Frame.Wire.{body, trailer, wire}
use web3_pi_ups_service.Proto.Frame.Inverse.{decode_ok-wire, decode_ok-take}
use web3_pi_ups_service.Proto.Deframer.{
  State, Deframer, new, completed, dispatch, feed_sync1, feed_sync2, feed, feed_slice,
}
use web3_pi_ups_service.Proto.Deframer.Complete.{
  at, feed_slice-append, header_phase, payload_phase, checksum_phase, end_phase,
}

-- Silent bytes, then the rest.
silent_then :
    (d e : Deframer) (xs ys : List ℕ)
    → feed_slice d xs ≡ (e, [])
    → feed_slice d (xs ++ ys) ≡ feed_slice e ys
silent_then d e xs ys h = rw (feed_slice-append d xs ys, h)

body_phase :
    (a b c d e f : ℕ) (ps : List ℕ)
    → length ps ≤ max_payload
    → let bs = a ∷ b ∷ c ∷ d ∷ e ∷ f ∷ (length ps % 256) ∷ (length ps / 256 % 256) ∷ ps in
      feed_slice (at State.header [] 0) bs ≡ (at State.ck_a bs (length ps), [])
body_phase a b c d e f [] h = header_phase a b c d e f 0 0 0 (omega arith) (omega arith)
body_phase a b c d e f (p ∷ ps) h =
    let n = suc (length ps) in
    let hs = a ∷ b ∷ c ∷ d ∷ e ∷ f ∷ (n % 256) ∷ (n / 256 % 256) ∷ [] in
    let some_payload : (n == 0) ≡ false = ground arith in
    silent_then (at State.header [] 0) (at State.payload hs n) hs (p ∷ ps) (
      header_phase a b c d e f (n % 256) (n / 256 % 256) n (omega arith) (omega arith)
      ∙ ap (λ t. (at (if t then State.ck_a else State.payload) hs n, [])) some_payload)
    ∙ payload_phase hs p ps n (omega arith)

completed-body :
    (f : Frame) (rest : List ℕ) → completed (at State.end2 (body f ++ rest) (length f.payload)) ≡ f
unfolding completed
completed-body f rest =
    let e : take (8 + length f.payload - 8) (f.payload ++ rest) ≡ f.payload =
      take-append_length _ f.payload rest (omega arith) in
    rw e

-- From the end of the sync sequence to the frame.
feed_slice-synced :
    (f : Frame)
    → length f.payload ≤ max_payload
    → feed_slice (at State.header [] 0) (body f ++ trailer (body f)) ≡ (new, ok f ∷ [])
feed_slice-synced f h =
    let n = length f.payload in
    let sums = (fletcher8 (body f)).0 ∷ (fletcher8 (body f)).1 ∷ [] in
    silent_then (at State.header [] 0) (at State.ck_a (body f) n) (body f) (trailer (body f))
      (body_phase f.dst f.src f.class f.op f.flags f.seq f.payload h)
    ∙ silent_then (at State.ck_a (body f) n) (at State.end1 (body f ++ sums) n) sums
        (Proto.end1 ∷ Proto.end2 ∷ []) (checksum_phase (body f) n (omega arith))
    ∙ end_phase (body f ++ sums) n
    ∙ ap (λ t. (new, ok t ∷ [])) (completed-body f sums)

sync_phase :
    (s : State) (buf bs : List ℕ) (n : ℕ)
    → (s ≡ State.sync1) ⊎ (s ≡ State.sync2)
    → feed_slice (at s buf n) (Proto.sync1 ∷ Proto.sync2 ∷ bs)
      ≡ feed_slice (at State.header [] 0) bs
unfolding feed_slice feed dispatch feed_sync1 feed_sync2
sync_phase State.sync1 buf bs n h = refl
sync_phase State.sync2 buf bs n h = refl
sync_phase s buf bs n h = ground arith

-- A deframer that waits for a sync sequence, also one that has just seen 0xAA, reports exactly
-- the frame whose encoding it is fed, and is as new afterwards.
pub feed_slice-wire :
    (d : Deframer) (f : Frame)
    → (d.state ≡ State.sync1) ⊎ (d.state ≡ State.sync2)
    → length f.payload ≤ max_payload
    → feed_slice d (wire f) ≡ (new, ok f ∷ [])
feed_slice-wire d f idle h =
    sync_phase d.state d.buf (body f ++ trailer (body f)) d.payload_len idle ∙ feed_slice-synced f h

-- Where `decode` accepts a buffer, a new deframer reports the same frame from the same bytes.
pub feed_slice-decode :
    (buf : List ℕ) (f : Frame) (n : ℕ)
    → decode buf ≡ ok (f, n)
    → feed_slice new (take n buf) ≡ (new, ok f ∷ [])
feed_slice-decode buf f n h =
    ap (feed_slice new) (decode_ok-take buf f n h)
    ∙ feed_slice-wire new f (inl (unfold new in refl)) (decode_ok-wire buf f n h).0

abbrev pub IsNoise : List ℕ → Type 0
IsNoise = All (λ b. b ≢ Proto.sync1)

-- Bytes other than 0xAA leave a new deframer as it is.
noise_silent : (bytes : List ℕ) → IsNoise bytes → feed_slice new bytes ≡ (new, [])
unfolding feed_slice feed dispatch feed_sync1 new
noise_silent [] h = refl
noise_silent (b ∷ bytes) h = ground (arith, noise_silent bytes h.1)

-- Frames on the wire, each behind some noise.
abbrev pub stream : List (List ℕ × Frame) → List ℕ
stream [] = []
stream ((noise, f) ∷ items) = noise ++ (wire f ++ stream items)

abbrev pub IsStream : List (List ℕ × Frame) → Type 0
IsStream = All (λ item. IsNoise item.0 × (length item.1.payload ≤ max_payload))

-- From a stream of encoded frames with noise without 0xAA between them, a new deframer reports
-- all the frames in order, and nothing else.
pub feed_slice-stream :
    (items : List (List ℕ × Frame))
    → IsStream items
    → feed_slice new (stream items) ≡ (new, map (λ item. ok item.1) items)
feed_slice-stream [] h = unfold feed_slice in refl
feed_slice-stream ((noise, f) ∷ items) ((quiet, short), h) =
    silent_then new new noise (wire f ++ stream items) (noise_silent noise quiet)
    ∙ feed_slice-append new (wire f) (stream items)
    ∙ rw (feed_slice-wire new f (inl (unfold new in refl)) short, feed_slice-stream items h)
