-- ===== src/Proto/Frame/RoundTrip.antt =====
-- Decoding inverts encoding, and encoding inverts decoding (src/proto/frame.rs).
use web3_pi_ups_service.Prelude.{
  ℕ, ◌+◌, ◌≤◌, ◌≡◌, ap, ◌∙◌, List, ◌∷◌, ◌++◌, length, length-append, get_or, get_or-append_right,
  take-append_length, slice, ok, arith,
}
use web3_pi_ups_service.Proto.{sync1, sync2, max_payload}
use web3_pi_ups_service.Proto.Frame.{Frame, decode, decode_body, encoded_len}
use web3_pi_ups_service.Proto.Frame.Wire.{body, trailer, wire, wire_split, length-wire}

-- A read in the trailer, behind the ten header bytes and the payload.
trailer_at :
    (f : Frame) (rest : List ℕ) (n i : ℕ)
    → n ≡ 10 + length f.payload + i
    → get_or (wire f ++ rest) n 0 ≡ get_or (trailer (body f) ++ rest) i 0
trailer_at f rest n i e =
    ap (λ t. get_or t n 0) (wire_split f rest)
    ∙ (get_or-append_right (sync1 ∷ sync2 ∷ body f) (trailer (body f) ++ rest) i n 0 (omega arith))

slice-body : (f : Frame) (rest : List ℕ) → slice 2 (10 + length f.payload) (wire f ++ rest) ≡ body f
slice-body f rest =
    ap (slice 2 (10 + length f.payload)) (wire_split f rest)
    ∙ (take-append_length _ (body f) (trailer (body f) ++ rest) (omega arith))

slice_payload :
    (f : Frame) (rest : List ℕ) → slice 10 (10 + length f.payload) (wire f ++ rest) ≡ f.payload
slice_payload f rest =
    ap (slice 10 (10 + length f.payload)) (wire_split f rest)
    ∙ (take-append_length _ f.payload (trailer (body f) ++ rest) (omega arith))

decode_body-wire :
    (f : Frame) (rest : List ℕ)
    → decode_body (wire f ++ rest) (length f.payload) ≡ ok (f, encoded_len f)
unfolding decode_body encoded_len
decode_body-wire f rest = ground (
  arith,
  slice-body f rest,
  slice_payload f rest,
  trailer_at f rest (10 + length f.payload) 0,
  trailer_at f rest (10 + length f.payload + 1) 1,
  trailer_at f rest (10 + length f.payload + 2) 2,
  trailer_at f rest (10 + length f.payload + 3) 3,
)

-- Decoding reads back the frame that `encode` wrote, with its length, and ignores what follows.
pub decode-wire :
    (f : Frame) (rest : List ℕ)
    → length f.payload ≤ max_payload
    → decode (wire f ++ rest) ≡ ok (f, encoded_len f)
unfolding decode
decode-wire f rest h =
    ground (arith, decode_body-wire f rest, length-append (wire f) rest, length-wire f)
