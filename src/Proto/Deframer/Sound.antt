-- ===== src/Proto/Deframer/Sound.antt =====
-- The deframer reports only frames that stand in its input (src/proto/deframer.rs).
use web3_pi_ups_service.Prelude.{
  ℕ, ◌≤◌, ◌≡◌, refl, sym, ap, ◌∙◌, some, none, List, [], ◌∷◌, ◌++◌, length, append_assoc, subst,
  Result, ok, err, arith,
}
use web3_pi_ups_service.Proto
use web3_pi_ups_service.Proto.{max_payload}
use web3_pi_ups_service.Proto.Frame.{Frame, FrameError}
use web3_pi_ups_service.Proto.Frame.Wire.{wire}
use web3_pi_ups_service.Proto.Deframer.{
  State, Deframer, Output, push_result, new, completed, dispatch, feed_sync1, feed_sync2,
  feed_header, feed_payload, feed_ck_a, feed_ck_b, feed_end1, feed_end2, feed, feed_slice,
}
use web3_pi_ups_service.Proto.Deframer.Invariant.{
  Phase, IsWellFormed, new-IsWellFormed, feed-IsWellFormed, feed_result_new,
}
use web3_pi_ups_service.Proto.Deframer.Pending.{held, pending, pending-feed, held-wire}

dispatch-ok :
    (s : State) (d : Deframer) (b : ℕ) (f : Frame)
    → (dispatch s d b).1 ≡ some (ok f)
    → (s ≡ State.end2) × (b ≡ Proto.end2) × (f ≡ completed d)
unfolding dispatch
dispatch-ok State.sync1 d b f h = unfold feed_sync1 in ground arith
dispatch-ok State.sync2 d b f h = unfold feed_sync2 in ground arith
dispatch-ok State.header d b f h = unfold feed_header in ground arith
dispatch-ok State.payload d b f h = unfold feed_payload in ground arith
dispatch-ok State.ck_a d b f h = unfold feed_ck_a in ground arith
dispatch-ok State.ck_b d b f h = unfold feed_ck_b in ground arith
dispatch-ok State.end1 d b f h = unfold feed_end1 in ground arith
dispatch-ok State.end2 d b f h = unfold feed_end2 in ground arith

-- A frame that a byte completes is read off the buffer.
pub feed-ok_completed :
    (d : Deframer) (b : ℕ) (f : Frame) → (feed d b).1 ≡ some (ok f) → f ≡ completed d
unfolding feed
feed-ok_completed d b f h = (dispatch-ok d.state d b f h).2

pub feed-ok_end : (d : Deframer) (b : ℕ) (f : Frame) → (feed d b).1 ≡ some (ok f) → b ≡ Proto.end2
unfolding feed
feed-ok_end d b f h = (dispatch-ok d.state d b f h).1

dispatch-ok_wire :
    (s : State) (d : Deframer) (b : ℕ) (f : Frame)
    → Phase s d.buf d.payload_len
    → (dispatch s d b).1 ≡ some (ok f)
    → (held s d.buf ++ (b ∷ []) ≡ wire f) × (length f.payload ≤ max_payload)
dispatch-ok_wire State.end2 d b f h o =
    let (_, eb, ef) = dispatch-ok State.end2 d b f o in rw (eb, ef) (held-wire d h)
dispatch-ok_wire s d b f h o = cc ((dispatch-ok s d b f o).0)

-- A byte that completes a frame completes its wire form.
pub feed-ok_wire :
    (d : Deframer) (b : ℕ) (f : Frame)
    → IsWellFormed d
    → (feed d b).1 ≡ some (ok f)
    → (pending d ++ (b ∷ []) ≡ wire f) × (length f.payload ≤ max_payload)
unfolding feed
feed-ok_wire d b f h o = dispatch-ok_wire d.state d b f h o

-- The frames among the results.
abbrev pub frames : List (Result Frame FrameError) → List Frame
frames [] = []
frames (ok f ∷ rs) = f ∷ frames rs
frames (err e ∷ rs) = frames rs

-- The wire forms of the frames stand in the bytes one behind the other, without overlap.
abbrev pub Contains : List ℕ → List Frame → Type 0
Contains bytes [] = Unit
Contains bytes (f ∷ fs) =
    (gap : List ℕ) × (rest : List ℕ) × (bytes ≡ gap ++ (wire f ++ rest))
    × (length f.payload ≤ max_payload)
    × Contains rest fs

Contains-append :
    (front bytes : List ℕ) (fs : List Frame) → Contains bytes fs → Contains (front ++ bytes) fs
Contains-append front bytes [] c = tt
Contains-append front bytes (f ∷ fs) (gap, rest, e, s, c) = (
  front ++ gap,
  rest,
  ap (λ t. front ++ t) e ∙ sym (append_assoc front gap (wire f ++ rest)),
  s,
  c,
)

-- The byte moves from the input to what is pending.
Contains-feed :
    (d : Deframer) (b : ℕ) (bytes : List ℕ) (fs : List Frame)
    → IsWellFormed d
    → Contains (pending (feed d b).0 ++ bytes) fs
    → Contains (pending d ++ (b ∷ bytes)) fs
Contains-feed d b bytes fs h c =
    let (front, e) = pending-feed d b h in
    subst (λ t. Contains t fs)
      (sym (append_assoc front (pending (feed d b).0) bytes)
        ∙ ap (λ t. t ++ bytes) (sym e)
        ∙ append_assoc (pending d) (b ∷ []) bytes)
      (Contains-append front (pending (feed d b).0 ++ bytes) fs c)

Contains-output :
    (d : Deframer) (b : ℕ) (bytes : List ℕ) (o : Output) (rs : List (Result Frame FrameError))
    → IsWellFormed d
    → (feed d b).1 ≡ o
    → Contains (pending (feed d b).0 ++ bytes) (frames rs)
    → Contains (pending d ++ (b ∷ bytes)) (frames (push_result o rs))
unfolding new
Contains-output d b bytes none rs h e c = Contains-feed d b bytes (frames rs) h c
Contains-output d b bytes (some (err x)) rs h e c = Contains-feed d b bytes (frames rs) h c
Contains-output d b bytes (some (ok f)) rs h e c =
    let (w, s) = feed-ok_wire d b f h e in
    (
      [],
      bytes,
      sym (append_assoc (pending d) (b ∷ []) bytes) ∙ ap (λ t. t ++ bytes) w,
      s,
      subst (λ t. Contains (pending t ++ bytes) (frames rs)) (feed_result_new d b e) c,
    )

-- From any well-formed state: pending bytes and input together hold the reported frames.
pub feed_slice-Contains :
    (d : Deframer) (bytes : List ℕ)
    → IsWellFormed d
    → Contains (pending d ++ bytes) (frames (feed_slice d bytes).1)
unfolding feed_slice
feed_slice-Contains d [] h = tt
feed_slice-Contains d (b ∷ bytes) h =
    Contains-output d b bytes (feed d b).1 (feed_slice (feed d b).0 bytes).1 h refl
      (feed_slice-Contains (feed d b).0 bytes (feed-IsWellFormed d b h))

-- Whatever a new deframer is fed, the frames it reports stand in the input with right checksum
-- and end bytes, in order and without overlap.
pub feed_slice_sound : (bytes : List ℕ) → Contains bytes (frames (feed_slice new bytes).1)
unfolding new
feed_slice_sound bytes = feed_slice-Contains new bytes new-IsWellFormed
