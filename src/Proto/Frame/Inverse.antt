-- ===== src/Proto/Frame/Inverse.antt =====
-- What a successful `decode` says of its buffer (src/proto/frame.rs).
use web3_pi_ups_service.Prelude.{
  ℕ, zero, suc, ◌+◌, ◌-◌, ◌/◌, ◌%◌, ◌≤◌, ◌≡◌, refl, sym, ap, ◌∙◌, List, ◌∷◌, ◌++◌, length, get_or,
  take, subst, length-take, length-drop, take-append_length, drop, slice, ok, arith,
}
use native.Mathlib.Nat.{suc-add}
use web3_pi_ups_service.Proto.{sync1, sync2, end1, end2, framing_bytes, max_payload}
use web3_pi_ups_service.Proto.Fletcher.{fletcher8}
use web3_pi_ups_service.Proto.Frame.{Frame, encode, decode, decode_body, encoded_len, from_le16}
use web3_pi_ups_service.Proto.Frame.Wire.{body, trailer, wire, wire_split, length-wire, encode_ok}

abbrev declared : List ℕ → ℕ
declared buf = from_le16 (get_or buf 8 0) (get_or buf 9 0)

-- The frame that `decode` reads off a buffer with a payload of `len` bytes.
abbrev frame_at : List ℕ → ℕ → Frame
frame_at buf len = record {
  dst = get_or buf 2 0;
  src = get_or buf 3 0;
  class = get_or buf 4 0;
  op = get_or buf 5 0;
  flags = get_or buf 6 0;
  seq = get_or buf 7 0;
  payload = slice 10 (10 + len) buf;
}

-- The four bytes at position `n` are the trailer of the bytes `bs`.
abbrev IsTrailerAt : List ℕ → ℕ → List ℕ → Type 0
IsTrailerAt bs n buf =
    (get_or buf n 0 ≡ (fletcher8 bs).0)
    × (get_or buf (n + 1) 0 ≡ (fletcher8 bs).1)
    × (get_or buf (n + 2) 0 ≡ end1)
    × (get_or buf (n + 3) 0 ≡ end2)

decode_body-inv :
    (buf : List ℕ) (len : ℕ) {r : Frame × ℕ}
    → decode_body buf len ≡ ok r
    → (r ≡ (frame_at buf len, 14 + len)) × IsTrailerAt (slice 2 (10 + len) buf) (10 + len) buf
unfolding decode_body
decode_body-inv buf len h = ground arith

decode-inv :
    (buf : List ℕ) {r : Frame × ℕ}
    → decode buf ≡ ok r
    → (get_or buf 0 0 ≡ sync1)
      × (get_or buf 1 0 ≡ sync2)
      × (declared buf ≤ 240)
      × (14 + declared buf ≤ length buf)
      × (decode_body buf (declared buf) ≡ ok r)
unfolding decode
decode-inv buf h = unfold decode in ground arith

-- A list cut at four of its bytes.
split_at_four :
    (n : ℕ) (xs : List ℕ)
    → n + 4 ≤ length xs
    → xs
      ≡ take n xs
        ++ (get_or xs n 0
            ∷ get_or xs (n + 1) 0
            ∷ get_or xs (n + 2) 0
            ∷ get_or xs (n + 3) 0
            ∷ drop (n + 4) xs)
split_at_four zero (a ∷ b ∷ c ∷ d ∷ xs) h = refl
split_at_four (suc n) (x ∷ xs) h = simp suc-add (ap (λ t. x ∷ t) (split_at_four n xs (omega arith)))
split_at_four _ _ h = absurd (omega arith)

-- The buffer from its checked bytes on, and behind them.
body_split :
    (buf : List ℕ) (len : ℕ)
    → 14 + len ≤ length buf
    → IsTrailerAt (slice 2 (10 + len) buf) (10 + len) buf
    → buf ≡ take (10 + len) buf ++ (trailer (slice 2 (10 + len) buf) ++ drop (14 + len) buf)
body_split buf len h (a, b, c, d) =
    (let e : 10 + len + 4 ≡ 14 + len = omega arith in
      split_at_four (10 + len) buf (omega arith) ∙ cc (e))

-- The bytes that the checksum covers are those that `encode` would write for the frame.
slice-body :
    (buf : List ℕ)
    → declared buf ≤ 240
    → 14 + declared buf ≤ length buf
    → slice 2 (10 + declared buf) buf ≡ body (frame_at buf (declared buf))
slice-body (a ∷ b ∷ c ∷ d ∷ e ∷ f ∷ g ∷ i ∷ j ∷ k ∷ bs) p h =
    let l = from_le16 j k in
    let e1 : 10 + l - 2 ≡ suc (suc (suc (suc (suc (suc (suc (suc l))))))) = omega arith in
    let e2 : 10 + l - 10 ≡ l = omega arith in
    let e3 : length (take l bs) ≡ l = length-take l bs (omega arith) in
    let e4 : l % 256 ≡ j = omega arith in
    let e5 : l / 256 % 256 ≡ k = omega arith in rw (e1, e2, e3, e4, e5)
slice-body _ p h = absurd (omega arith)

take-slice :
    (buf : List ℕ) (len : ℕ)
    → get_or buf 0 0 ≡ sync1
    → get_or buf 1 0 ≡ sync2
    → 14 ≤ length buf
    → take (10 + len) buf ≡ sync1 ∷ sync2 ∷ slice 2 (10 + len) buf
take-slice (a ∷ b ∷ bs) len p q h =
    let e1 : 10 + len - 2 ≡ 8 + len = omega arith in
    let e2 : 10 + len ≡ suc (suc (8 + len)) = omega arith in rw (e1, e2, p, q)
take-slice _ len p q h = absurd (omega arith)

frame_at-wire :
    (buf : List ℕ)
    → get_or buf 0 0 ≡ sync1
    → get_or buf 1 0 ≡ sync2
    → declared buf ≤ 240
    → 14 + declared buf ≤ length buf
    → IsTrailerAt (slice 2 (10 + declared buf) buf) (10 + declared buf) buf
    → buf ≡ wire (frame_at buf (declared buf)) ++ drop (14 + declared buf) buf
frame_at-wire buf s1 s2 small long tail =
    let f = frame_at buf (declared buf) in
    let rest = drop (14 + declared buf) buf in
    body_split buf (declared buf) long tail
    ∙ ap (λ t. t ++ (trailer (slice 2 (10 + declared buf) buf) ++ rest))
        (take-slice buf (declared buf) s1 s2 (omega arith))
    ∙ ap (λ t. (sync1 ∷ sync2 ∷ t) ++ (trailer t ++ rest)) (slice-body buf small long)
    ∙ sym (wire_split f rest)

length-frame_at :
    (buf : List ℕ) (len : ℕ) → 14 + len ≤ length buf → length (frame_at buf len).payload ≡ len
length-frame_at buf len h =
    let e : 10 + len - 10 ≡ len = omega arith in
    rw e (length-take len (drop 10 buf) (omega (arith, length-drop 10 buf)))

-- A buffer that decodes begins with the wire form of the frame that was read.
pub decode_ok-wire :
    (buf : List ℕ) (f : Frame) (n : ℕ)
    → decode buf ≡ ok (f, n)
    → (length f.payload ≤ max_payload) × (n ≡ encoded_len f) × (buf ≡ wire f ++ drop n buf)
unfolding encoded_len
decode_ok-wire buf f n h =
    let (s1, s2, small, long, rest) = decode-inv buf h in
    let (result, tail) = decode_body-inv buf (declared buf) rest in
    let sized = length-frame_at buf (declared buf) long in
    subst
      (λ (r : Frame × ℕ).
        (length r.0.payload ≤ max_payload)
        × (r.1 ≡ framing_bytes + length r.0.payload)
        × (buf ≡ wire r.0 ++ drop r.1 buf))
      (sym result) (rw sized small, omega (arith, sized), frame_at-wire buf s1 s2 small long tail)

pub decode_ok-take :
    (buf : List ℕ) (f : Frame) (n : ℕ) → decode buf ≡ ok (f, n) → take n buf ≡ wire f
decode_ok-take buf f n h =
    let (short, size, split) = decode_ok-wire buf f n h in
    ap (take n) split ∙ take-append_length n (wire f) (drop n buf) (length-wire f ∙ sym size)

-- Whatever `decode` accepts, `encode` writes back: the bytes consumed are the encoding.
pub encode-decode :
    (buf : List ℕ) (f : Frame) (n : ℕ) → decode buf ≡ ok (f, n) → encode f ≡ ok (take n buf)
encode-decode buf f n h =
    encode_ok f (decode_ok-wire buf f n h).0 ∙ ap ok (sym (decode_ok-take buf f n h))
