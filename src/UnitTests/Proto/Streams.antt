-- ===== src/UnitTests/Proto/Streams.antt =====
-- The tests of clean streams (src/proto/deframer.rs, module tests).
use web3_pi_ups_service.Prelude.{
  ◌≡◌, refl, ℕ, Option, none, some, List, [], ◌∷◌, ◌++◌, Result, ok, err,
}
use web3_pi_ups_service.Proto.Fletcher.{fletcher8, fletcher8_loop}
use web3_pi_ups_service.Proto.Frame
use web3_pi_ups_service.Proto.Frame.{FrameError, encode}
use web3_pi_ups_service.Proto.Deframer.{
  Deframer, Output, new, feed_sync1, feed_sync2, feed_header, feed_payload, feed_ck_a, feed_ck_b,
  feed_end1, feed_end2, feed, feed_slice,
}
use web3_pi_ups_service.UnitTests.Proto.{ping_req, ping_bytes, status_frame, or_empty}

abbrev pub run : List ℕ → List (Result Frame.Frame FrameError)
run bytes = (feed_slice new bytes).1

abbrev ParsesOneCleanFrame : Type 0
ParsesOneCleanFrame = run ping_bytes ≡ ok ping_req ∷ []

parses_one_clean_frame : ParsesOneCleanFrame
unfolding encode fletcher8 fletcher8_loop new feed_sync1 feed_sync2 feed_header feed_ck_a feed_ck_b
    feed_end1 feed_end2 feed feed_slice
parses_one_clean_frame = refl

abbrev ParsesTwoBackToBack : Type 0
ParsesTwoBackToBack = run (ping_bytes ++ ping_bytes) ≡ ok ping_req ∷ ok ping_req ∷ []

parses_two_back_to_back : ParsesTwoBackToBack
unfolding encode fletcher8 fletcher8_loop new feed_sync1 feed_sync2 feed_header feed_ck_a feed_ck_b
    feed_end1 feed_end2 feed feed_slice
parses_two_back_to_back = refl

abbrev SkipsGarbagePrefix : Type 0
SkipsGarbagePrefix = run (0x12 ∷ 0x34 ∷ 0x55 ∷ 0x99 ∷ 0x00 ∷ ping_bytes) ≡ ok ping_req ∷ []

skips_garbage_prefix : SkipsGarbagePrefix
unfolding encode fletcher8 fletcher8_loop new feed_sync1 feed_sync2 feed_header feed_ck_a feed_ck_b
    feed_end1 feed_end2 feed feed_slice
skips_garbage_prefix = refl

abbrev DoubleAaResyncs : Type 0
DoubleAaResyncs = run (0xaa ∷ ping_bytes) ≡ ok ping_req ∷ []

double_aa_resyncs : DoubleAaResyncs
unfolding encode fletcher8 fletcher8_loop new feed_sync1 feed_sync2 feed_header feed_ck_a feed_ck_b
    feed_end1 feed_end2 feed feed_slice
double_aa_resyncs = refl

abbrev PayloadRoundTripThroughDeframer : Type 0
PayloadRoundTripThroughDeframer = run (or_empty (encode status_frame)) ≡ ok status_frame ∷ []

payload_round_trip_through_deframer : PayloadRoundTripThroughDeframer
unfolding encode fletcher8 fletcher8_loop new feed_sync1 feed_sync2 feed_header feed_payload
    feed_ck_a feed_ck_b feed_end1 feed_end2 feed feed_slice
payload_round_trip_through_deframer = refl

-- `completed = Some(r.unwrap())` on a result.
abbrev completed_by : Output → Option Frame.Frame → Option Frame.Frame
completed_by none completed = completed
completed_by (some (ok f)) completed = some f
completed_by (some (err e)) completed = none

abbrev feed_each : Deframer → List ℕ → Option Frame.Frame → Option Frame.Frame
feed_each d [] completed = completed
feed_each d (b ∷ bytes) completed =
    let fed = feed d b in feed_each fed.0 bytes (completed_by fed.1 completed)

abbrev FedOneByteAtATime : Type 0
FedOneByteAtATime = feed_each new ping_bytes none ≡ some ping_req

fed_one_byte_at_a_time : FedOneByteAtATime
unfolding encode fletcher8 fletcher8_loop new feed_sync1 feed_sync2 feed_header feed_ck_a feed_ck_b
    feed_end1 feed_end2 feed feed_slice
fed_one_byte_at_a_time = refl
