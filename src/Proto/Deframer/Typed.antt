-- ===== src/Proto/Deframer/Typed.antt =====
-- The deframer makes frames of bytes (src/proto/deframer.rs).
use web3_pi_ups_service.Prelude.{
  ℕ, ◌+◌, ◌≡◌, refl, subst, sym, some, none, List, [], ◌∷◌, ◌++◌, All, All-append, All-get_or,
  All-slice, Result, ok, err, arith,
}
use web3_pi_ups_service.Proto.{header_data_bytes}
use web3_pi_ups_service.Proto.Frame.{Frame, FrameError, IsByte}
use web3_pi_ups_service.Proto.Frame.Typed.{IsTypedFrame}
use web3_pi_ups_service.Proto.Deframer.{
  State, Deframer, Output, push_result, completed, dispatch, feed_sync1, feed_sync2, feed_header,
  feed_payload, feed_ck_a, feed_ck_b, feed_end1, feed_end2, feed, feed_slice,
}
use web3_pi_ups_service.Proto.Deframer.Sound.{frames, feed-ok_completed}

completed-IsTypedFrame : (d : Deframer) → All IsByte d.buf → IsTypedFrame (completed d)
unfolding completed
completed-IsTypedFrame d h =
    let at : (i : ℕ) → IsByte _ = λ i. All-get_or IsByte d.buf i 0 h (omega arith) in
    record {
      dst = at 0;
      src = at 1;
      class = at 2;
      op = at 3;
      flags = at 4;
      seq = at 5;
      payload = All-slice IsByte header_data_bytes (header_data_bytes + d.payload_len) d.buf h;
    }

push-IsByte : (buf : List ℕ) (b : ℕ) → All IsByte buf → IsByte b → All IsByte (buf ++ (b ∷ []))
push-IsByte buf b h k = All-append IsByte buf (b ∷ []) h (k, tt)

-- The buffer is filled from the input.
dispatch-IsByte :
    (s : State) (d : Deframer) (b : ℕ)
    → All IsByte d.buf
    → IsByte b
    → All IsByte (dispatch s d b).0.buf
unfolding dispatch
dispatch-IsByte State.sync1 d b h k = unfold feed_sync1 in ground arith
dispatch-IsByte State.sync2 d b h k = unfold feed_sync2 in ground arith
dispatch-IsByte State.header d b h k = unfold feed_header in ground (arith, push-IsByte d.buf b h k)
dispatch-IsByte State.payload d b h k =
    unfold feed_payload in ground (arith, push-IsByte d.buf b h k)
dispatch-IsByte State.ck_a d b h k = unfold feed_ck_a in push-IsByte d.buf b h k
dispatch-IsByte State.ck_b d b h k = unfold feed_ck_b in ground (arith, push-IsByte d.buf b h k)
dispatch-IsByte State.end1 d b h k = unfold feed_end1 in ground arith
dispatch-IsByte State.end2 d b h k = unfold feed_end2 in ground arith

output-IsTypedFrame :
    (o : Output) (rs : List (Result Frame FrameError))
    → ((f : Frame) → o ≡ some (ok f) → IsTypedFrame f)
    → All IsTypedFrame (frames rs)
    → All IsTypedFrame (frames (push_result o rs))
output-IsTypedFrame none rs h k = k
output-IsTypedFrame (some (ok f)) rs h k = (h f refl, k)
output-IsTypedFrame (some (err e)) rs h k = k

-- From a buffer of bytes and more bytes come frames of bytes, and a buffer of bytes is left.
pub feed_slice-IsTypedFrame :
    (d : Deframer) (bytes : List ℕ)
    → All IsByte d.buf
    → All IsByte bytes
    → All IsByte (feed_slice d bytes).0.buf × All IsTypedFrame (frames (feed_slice d bytes).1)
unfolding feed_slice
feed_slice-IsTypedFrame d [] h k = (h, tt)
feed_slice-IsTypedFrame d (b ∷ bytes) h k =
    let next : All IsByte (feed d b).0.buf = unfold feed in dispatch-IsByte d.state d b h k.0 in
    let (left, later) = feed_slice-IsTypedFrame (feed d b).0 bytes next k.1 in
    (
      left,
      output-IsTypedFrame (feed d b).1 _
          (λ f e. subst IsTypedFrame (sym (feed-ok_completed d b f e)) (completed-IsTypedFrame d h))
          later,
    )
