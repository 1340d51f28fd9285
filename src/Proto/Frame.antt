-- ===== src/Proto/Frame.antt =====
-- Frames and their encoding (src/proto/frame.rs). A byte buffer is a list of numbers.
-- `buf[i]` is `get_or buf i 0`: every read stands behind a check of the length.
pub mod Typed
pub mod Wire
pub mod RoundTrip
pub mod Inverse
pub mod Rejects
use web3_pi_ups_service.Prelude.{
  ℕ, zero, suc, ◌+◌, ◌-◌, ◌*◌, ◌/◌, ◌%◌, ◌<◌, ◌≡◌, Bool, not, ◌||◌, ◌&&◌, ltb, ◌==◌, if◌then◌else◌,
  List, [], ◌∷◌, ◌++◌, length, get_or, slice, drop, All, Result, ok, err, ◌>>=◌,
}
use web3_pi_ups_service.Proto.{sync1, sync2, end1, end2, header_bytes, framing_bytes, max_payload}
use web3_pi_ups_service.Proto.Fletcher.{fletcher8}

pub record Frame : Type 0 where
  pub dst : ℕ
  pub src : ℕ
  pub class : ℕ
  pub op : ℕ
  pub flags : ℕ
  pub seq : ℕ
  pub payload : List ℕ

pub data FrameError : Type 0 where
  payload_too_long : ℕ → FrameError
  too_short : FrameError
  bad_sync : FrameError
  bad_end_marker : FrameError
  bad_checksum : (expected computed : ℕ × ℕ) → FrameError

abbrev pub IsByte : ℕ → Type 0
IsByte b = b < 256

-- `u16::from_le_bytes`
abbrev pub from_le16 : ℕ → ℕ → ℕ
from_le16 lo hi = lo + 256 * hi

unfoldable pub encoded_len : Frame → ℕ
encoded_len f = framing_bytes + length f.payload

-- The header and payload bytes that the checksum covers.
abbrev pub checked_bytes : Frame → ℕ → List ℕ
checked_bytes f len =
    f.dst ∷ f.src ∷ f.class ∷ f.op ∷ f.flags ∷ f.seq ∷ (len % 256) ∷ (len / 256 % 256) ∷ f.payload

-- Appends to `out`; on an error `out` is left as it was.
unfoldable pub encode_into : Frame → List ℕ → Result (List ℕ) FrameError
encode_into f out =
    if ltb max_payload (length f.payload)
    then err (payload_too_long (length f.payload))
    else let len = length f.payload % 65536 in
      let synced = out ++ (sync1 ∷ sync2 ∷ []) in
      let cks_start = length synced in
      let filled = synced ++ checked_bytes f len in
      let ck = fletcher8 (drop cks_start filled) in ok (filled ++ (ck.0 ∷ ck.1 ∷ end1 ∷ end2 ∷ []))

unfoldable pub encode : Frame → Result (List ℕ) FrameError
unfolding encode_into
encode f = encode_into f []

-- The second half of `decode`, once the declared length is known to fit the buffer.
unfoldable pub decode_body : List ℕ → ℕ → Result (Frame × ℕ) FrameError
decode_body buf len =
    let payload_end = header_bytes + len in
    let cka = get_or buf payload_end 0 in
    let ckb = get_or buf (payload_end + 1) 0 in
    let e1 = get_or buf (payload_end + 2) 0 in
    let e2 = get_or buf (payload_end + 3) 0 in
    let computed = fletcher8 (slice 2 payload_end buf) in
    if not (computed.0 == cka) || not (computed.1 == ckb)
    then err (bad_checksum (cka, ckb) computed)
    else if not (e1 == end1) || not (e2 == end2)
    then err bad_end_marker
    else ok (
      record {
        dst = get_or buf 2 0;
        src = get_or buf 3 0;
        class = get_or buf 4 0;
        op = get_or buf 5 0;
        flags = get_or buf 6 0;
        seq = get_or buf 7 0;
        payload = slice header_bytes payload_end buf;
      },
      framing_bytes + len,
    )

unfoldable pub decode : List ℕ → Result (Frame × ℕ) FrameError
unfolding decode_body
decode buf =
    if ltb (length buf) framing_bytes
    then err too_short
    else if not (get_or buf 0 0 == sync1) || not (get_or buf 1 0 == sync2)
    then err bad_sync
    else let len = from_le16 (get_or buf 8 0) (get_or buf 9 0) in
      if ltb max_payload len
      then err (payload_too_long len)
      else if ltb (length buf) (framing_bytes + len)
      then err too_short
      else decode_body buf len
