-- ===== src/UnitTests/Proto/RejectedFrames.antt =====
-- The tests of what is rejected (src/proto/frame.rs, module tests).
use web3_pi_ups_service.Prelude.{
  ◌≡◌, refl, ◌+◌, ◌-◌, ◌%◌, ℕ, zero, suc, true, List, [], ◌∷◌, ◌++◌, length, take, err, arith,
}
use web3_pi_ups_service.Proto.{sync1, sync2, framing_bytes, max_payload}
use web3_pi_ups_service.Proto.Fletcher.{fletcher8, fletcher8_loop}
use web3_pi_ups_service.Proto.Frame
use web3_pi_ups_service.Proto.Frame.{
  encode, decode, decode_body, too_short, bad_sync, bad_end_marker,
}
use web3_pi_ups_service.UnitTests.Payloads.Texts.{repeated}
use web3_pi_ups_service.UnitTests.Proto.{
  ping_bytes, changed, is_err, is_payload_too_long, is_bad_checksum,
}

abbrev PayloadTooLongRejectedOnEncode : Type 0
PayloadTooLongRejectedOnEncode =
    let frame : Frame.Frame = record {
      dst = 0;
      src = 0;
      class = 0;
      op = 0;
      flags = 0;
      seq = 0;
      payload = repeated 0 (max_payload + 1);
    } in
    is_err is_payload_too_long (encode frame) ≡ true

payload_too_long_rejected_on_encode : PayloadTooLongRejectedOnEncode
unfolding encode
payload_too_long_rejected_on_encode = refl

abbrev BadSyncRejected : Type 0
BadSyncRejected = decode (changed 0 (λ b. 0x00) ping_bytes) ≡ err bad_sync

bad_sync_rejected : BadSyncRejected
unfolding encode decode fletcher8 fletcher8_loop
bad_sync_rejected = refl

abbrev BadChecksumRejected : Type 0
BadChecksumRejected =
    let bytes = changed (length ping_bytes - 4) (λ b. (b + 1) % 256) ping_bytes in
    is_err is_bad_checksum (decode bytes) ≡ true

bad_checksum_rejected : BadChecksumRejected
unfolding encode decode decode_body fletcher8 fletcher8_loop
bad_checksum_rejected = refl

abbrev BadEndMarkerRejected : Type 0
BadEndMarkerRejected =
    decode (changed (length ping_bytes - 1) (λ b. 0x00) ping_bytes) ≡ err bad_end_marker

bad_end_marker_rejected : BadEndMarkerRejected
unfolding encode decode decode_body fletcher8 fletcher8_loop
bad_end_marker_rejected = refl

-- For every length below `n`.
abbrev AllTooShort : List ℕ → ℕ → Type 0
AllTooShort bytes zero = Unit
AllTooShort bytes (suc n) = (decode (take n bytes) ≡ err too_short) × AllTooShort bytes n

abbrev TruncatedTooShort : Type 0
TruncatedTooShort = AllTooShort ping_bytes (length ping_bytes)

truncated_too_short : TruncatedTooShort
unfolding encode decode
truncated_too_short = ground arith

abbrev DeclaredLenExceedsMax : Type 0
DeclaredLenExceedsMax =
    let bytes =
      (sync1 ∷ sync2 ∷ 0 ∷ 0 ∷ 0 ∷ 0 ∷ 0 ∷ 0 ∷ 0xff ∷ 0xff ∷ []) ++ repeated 0 framing_bytes in
    is_err is_payload_too_long (decode bytes) ≡ true

declared_len_exceeds_max : DeclaredLenExceedsMax
unfolding decode
declared_len_exceeds_max = refl
