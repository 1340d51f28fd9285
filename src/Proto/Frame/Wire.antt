-- ===== src/Proto/Frame/Wire.antt =====
-- What `encode` writes, as one list (src/proto/frame.rs).
use web3_pi_ups_service.Prelude.{
  ℕ, ◌%◌, ◌≤◌, ◌≡◌, refl, ap, ◌∙◌, false, ltb, List, [], ◌∷◌, ◌++◌, length, length-append,
  drop-append_length, append_assoc, ok, arith,
}
use web3_pi_ups_service.Proto.{sync1, sync2, end1, end2, max_payload}
use web3_pi_ups_service.Proto.Fletcher.{fletcher8}
use web3_pi_ups_service.Proto.Frame.{Frame, checked_bytes, encoded_len, encode_into, encode}

-- The bytes between the sync bytes and the checksum.
abbrev pub body : Frame → List ℕ
body f = checked_bytes f (length f.payload)

abbrev pub trailer : List ℕ → List ℕ
trailer bs = (fletcher8 bs).0 ∷ (fletcher8 bs).1 ∷ end1 ∷ end2 ∷ []

-- The wire form of a frame, written out.
abbrev pub wire : Frame → List ℕ
wire f = sync1 ∷ sync2 ∷ (body f ++ trailer (body f))

pub length-wire : (f : Frame) → length (wire f) ≡ encoded_len f
unfolding encoded_len
length-wire f = omega (arith, length-append f.payload (trailer (body f)))

-- Encoding a frame with a payload of at most 240 bytes appends its wire form.
pub encode_into_ok :
    (f : Frame) (out : List ℕ)
    → length f.payload ≤ max_payload
    → encode_into f out ≡ ok (out ++ wire f)
unfolding encode_into
encode_into_ok f out h =
    let small : length f.payload % 65536 ≡ length f.payload = omega arith in
    let short : ltb max_payload (length f.payload) ≡ false = ground arith in
    rw (short, small, drop-append_length _ (out ++ (sync1 ∷ sync2 ∷ [])) (body f) refl)
      (ap ok (
        append_assoc (out ++ (sync1 ∷ sync2 ∷ [])) (body f) (trailer (body f))
        ∙ append_assoc out (sync1 ∷ sync2 ∷ []) (body f ++ trailer (body f))))

pub encode_ok : (f : Frame) → length f.payload ≤ max_payload → encode f ≡ ok (wire f)
unfolding encode
encode_ok f h = encode_into_ok f [] h

-- The wire form and what follows it, cut behind the checked bytes.
pub wire_split :
    (f : Frame) (rest : List ℕ)
    → wire f ++ rest ≡ (sync1 ∷ sync2 ∷ body f) ++ (trailer (body f) ++ rest)
wire_split f rest = ap (λ t. sync1 ∷ sync2 ∷ t) (append_assoc (body f) (trailer (body f)) rest)
