-- ===== src/UnitTests/Proto/DamagedStreams.antt =====
-- The tests of damaged streams (src/proto/deframer.rs, module tests).
use web3_pi_ups_service.Prelude.{
  ◌≡◌, refl, ◌+◌, ◌-◌, ◌%◌, ℕ, zero, suc, Bool, true, false, ◌||◌, ◌⊎◌, inl, List, [], ◌∷◌, ◌++◌,
  All, length, take, Result, ok, err, arith,
}
use web3_pi_ups_service.Proto.{sync1, sync2}
use web3_pi_ups_service.Proto.Fletcher.{fletcher8, fletcher8_loop}
use web3_pi_ups_service.Proto.Frame
use web3_pi_ups_service.Proto.Frame.{FrameError, bad_end_marker, encode}
use web3_pi_ups_service.Proto.Deframer.{
  new, feed_sync1, feed_sync2, feed_header, feed_ck_a, feed_ck_b, feed_end1, feed_end2, feed,
  feed_slice,
}
use web3_pi_ups_service.UnitTests.Proto.{
  ping_req, ping_bytes, changed, is_err, is_payload_too_long, is_bad_checksum,
}
use web3_pi_ups_service.UnitTests.Proto.Streams.{run}

-- `results.iter().any(..)` on errors and on the frame.
abbrev any_err : (FrameError → Bool) → List (Result Frame.Frame FrameError) → Bool
any_err test [] = false
any_err test (r ∷ rs) = is_err test r || any_err test rs

abbrev HasOk : Frame.Frame → List (Result Frame.Frame FrameError) → Type 0
HasOk f [] = ⊥
HasOk f (ok g ∷ rs) = (g ≡ f) ⊎ HasOk f rs
HasOk f (err e ∷ rs) = HasOk f rs

abbrev is_bad_end_marker : FrameError → Bool
is_bad_end_marker bad_end_marker = true
is_bad_end_marker _ = false

abbrev BadChecksumEmitsErrorThenRecovers : Type 0
BadChecksumEmitsErrorThenRecovers =
    let bytes = changed (length ping_bytes - 4) (λ b. (b + 1) % 256) ping_bytes in
    let results = run (bytes ++ ping_bytes) in
    (any_err is_bad_checksum results ≡ true) × HasOk ping_req results

bad_checksum_emits_error_then_recovers : BadChecksumEmitsErrorThenRecovers
unfolding encode fletcher8 fletcher8_loop new feed_sync1 feed_sync2 feed_header feed_ck_a feed_ck_b
    feed_end1 feed_end2 feed feed_slice
bad_checksum_emits_error_then_recovers = (refl, inl refl)

abbrev BadEndMarkerEmitsErrorThenRecovers : Type 0
BadEndMarkerEmitsErrorThenRecovers =
    let bytes = changed (length ping_bytes - 1) (λ b. 0x00) ping_bytes in
    let results = run (bytes ++ ping_bytes) in
    (any_err is_bad_end_marker results ≡ true) × HasOk ping_req results

bad_end_marker_emits_error_then_recovers : BadEndMarkerEmitsErrorThenRecovers
unfolding encode fletcher8 fletcher8_loop new feed_sync1 feed_sync2 feed_header feed_ck_a feed_ck_b
    feed_end1 feed_end2 feed feed_slice
bad_end_marker_emits_error_then_recovers = (refl, inl refl)

-- One result, an error of this kind.
abbrev OnlyErr : (FrameError → Bool) → List (Result Frame.Frame FrameError) → Type 0
OnlyErr test (r ∷ []) = is_err test r ≡ true
OnlyErr test _ = ⊥

abbrev OversizedLenEmitsError : Type 0
OversizedLenEmitsError =
    OnlyErr is_payload_too_long (run (sync1 ∷ sync2 ∷ 0 ∷ 0 ∷ 0 ∷ 0 ∷ 0 ∷ 0 ∷ 0xff ∷ 0xff ∷ []))

oversized_len_emits_error : OversizedLenEmitsError
unfolding encode fletcher8 fletcher8_loop new feed_sync1 feed_sync2 feed_header feed_ck_a feed_ck_b
    feed_end1 feed_end2 feed feed_slice
oversized_len_emits_error = refl

-- For every length below `n`, all results are errors.
abbrev AllErrors : List ℕ → ℕ → Type 0
AllErrors bytes zero = Unit
AllErrors bytes (suc n) =
    All (λ r. is_err (λ e. true) r ≡ true) (run (take n bytes)) × AllErrors bytes n

abbrev TruncatedYieldsNoCompleteFrame : Type 0
TruncatedYieldsNoCompleteFrame = AllErrors ping_bytes (length ping_bytes)

truncated_yields_no_complete_frame : TruncatedYieldsNoCompleteFrame
unfolding encode fletcher8 fletcher8_loop new feed_sync1 feed_sync2 feed_header feed_ck_a feed_ck_b
    feed_end1 feed_end2 feed feed_slice
truncated_yields_no_complete_frame = ground arith
