-- ===== src/Proto/Frame/Rejects.antt =====
-- What `decode` answers to cut and to damaged frames (src/proto/frame.rs).
use web3_pi_ups_service.Prelude.{
  ℕ, ◌+◌, ◌*◌, ◌-◌, ◌/◌, ◌%◌, ◌≤◌, ◌<◌, ◌≡◌, ◌≢◌, sym, ap, ◌∙◌, true, if◌then◌else◌, ◌==◌, ◌||◌,
  not, List, ◌∷◌, ◌++◌, length, length-append, get_or, get_or-append_left, get_or-append_right,
  take-append_length, ok, err, arith,
}
use web3_pi_ups_service.Proto.{sync1, sync2, end1, end2, max_payload}
use web3_pi_ups_service.Proto.Fletcher.{fletcher8}
use web3_pi_ups_service.Proto.Fletcher.Detects.{fletcher8-changed_byte}
use web3_pi_ups_service.Proto.Frame.{
  Frame, too_short, bad_checksum, bad_end_marker, decode, decode_body, encoded_len,
}
use web3_pi_ups_service.Proto.Frame.Wire.{body, wire, length-wire}

-- Every proper prefix of an encoding is too short.
pub decode_truncated :
    (f : Frame) (front : List ℕ) (x : ℕ) (back : List ℕ)
    → length f.payload ≤ max_payload
    → wire f ≡ front ++ (x ∷ back)
    → decode front ≡ err too_short
unfolding decode
decode_truncated f front x back h e =
    let fewer : length front < 14 + length f.payload =
      unfold encoded_len in
      omega (arith, sym (length-wire f) ∙ ap length e, length-append front (x ∷ back)) in
    ground (
      arith,
      fewer,
      ap (λ t. get_or t 0 0) e,
      ap (λ t. get_or t 1 0) e,
      ap (λ t. get_or t 8 0) e,
      ap (λ t. get_or t 9 0) e,
      get_or-append_left front (x ∷ back) 0 0,
      get_or-append_left front (x ∷ back) 1 0,
      get_or-append_left front (x ∷ back) 8 0,
      get_or-append_left front (x ∷ back) 9 0,
    )

-- A frame's bytes with any four bytes in the place of the trailer.
abbrev pub with_trailer : Frame → ℕ → ℕ → ℕ → ℕ → List ℕ → List ℕ
with_trailer f a b c d rest = sync1 ∷ sync2 ∷ (body f ++ (a ∷ b ∷ c ∷ d ∷ rest))

trailer_read :
    (f : Frame) (a b c d : ℕ) (rest : List ℕ) (n i : ℕ)
    → n ≡ 10 + length f.payload + i
    → get_or (with_trailer f a b c d rest) n 0 ≡ get_or (a ∷ b ∷ c ∷ d ∷ rest) i 0
trailer_read f a b c d rest n i e =
    get_or-append_right (sync1 ∷ sync2 ∷ body f) (a ∷ b ∷ c ∷ d ∷ rest) i n 0 (omega arith)

decode_body-trailer :
    (f : Frame) (a b c d : ℕ) (rest : List ℕ)
    → decode_body (with_trailer f a b c d rest) (length f.payload) ≡ (
        if not ((fletcher8 (body f)).0 == a) || not ((fletcher8 (body f)).1 == b)
        then err (bad_checksum (a, b) (fletcher8 (body f)))
        else if not (c == end1) || not (d == end2)
        then err bad_end_marker
        else ok (f, encoded_len f))
unfolding decode_body encoded_len
decode_body-trailer f a b c d rest =
    let n = length f.payload in
    let t = a ∷ b ∷ c ∷ d ∷ rest in
    ground (
      arith,
      take-append_length (10 + n - 2) (body f) t,
      take-append_length (10 + n - 10) f.payload t,
      trailer_read f a b c d rest (10 + n) 0,
      trailer_read f a b c d rest (10 + n + 1) 1,
      trailer_read f a b c d rest (10 + n + 2) 2,
      trailer_read f a b c d rest (10 + n + 3) 3,
    )

-- `decode` on a frame's bytes under any trailer: the checksum is tested first, then the end
-- bytes, and only the right trailer is accepted.
pub decode-with_trailer :
    (f : Frame) (a b c d : ℕ) (rest : List ℕ)
    → length f.payload ≤ max_payload
    → decode (with_trailer f a b c d rest) ≡ (
        if not ((fletcher8 (body f)).0 == a) || not ((fletcher8 (body f)).1 == b)
        then err (bad_checksum (a, b) (fletcher8 (body f)))
        else if not (c == end1) || not (d == end2)
        then err bad_end_marker
        else ok (f, encoded_len f))
unfolding decode
decode-with_trailer f a b c d rest h =
    let n = length f.payload in
    let e : n % 256 + 256 * (n / 256 % 256) ≡ n = omega arith in
    ground
      (arith, e, decode_body-trailer f a b c d rest, length-append (body f) (a ∷ b ∷ c ∷ d ∷ rest))

differ-test : (p q : ℕ × ℕ) → p ≢ q → (not (q.0 == p.0) || not (q.1 == p.1)) ≡ true
differ-test (a, b) (c, d) h = ground arith

-- The checksum of a frame with one payload byte changed.
body_changed :
    (f : Frame) (front back : List ℕ) (x y : ℕ)
    → x < 256
    → y < 256
    → x ≢ y
    → fletcher8 (body (record f { payload = front ++ (x ∷ back) }))
      ≢ fletcher8 (body (record f { payload = front ++ (y ∷ back) }))
body_changed f front back x y hx hy ne e =
    let n = length (front ++ (y ∷ back)) in
    let hs =
      f.dst ∷ f.src ∷ f.class ∷ f.op ∷ f.flags ∷ f.seq ∷ (n % 256) ∷ (n / 256 % 256) ∷ front in
    let same : length (front ++ (x ∷ back)) ≡ n =
      omega (arith, length-append front (x ∷ back), length-append front (y ∷ back)) in
    fletcher8-changed_byte hs back x y hx hy ne (rw same at e)

-- One payload byte damaged on the way: `decode` reports a bad checksum, with the sum that was
-- sent and the sum that it computed.
pub decode_damaged :
    (f : Frame) (front back rest : List ℕ) (x y : ℕ)
    → length (front ++ (y ∷ back)) ≤ max_payload
    → x < 256
    → y < 256
    → x ≢ y
    → let sent = fletcher8 (body (record f { payload = front ++ (x ∷ back) })) in
      let received = record f { payload = front ++ (y ∷ back) } in
      decode (with_trailer received sent.0 sent.1 end1 end2 rest)
      ≡ err (bad_checksum sent (fletcher8 (body received)))
decode_damaged f front back rest x y h hx hy ne =
    let sent = fletcher8 (body (record f { payload = front ++ (x ∷ back) })) in
    let received = record f { payload = front ++ (y ∷ back) } in
    decode-with_trailer received sent.0 sent.1 end1 end2 rest h
    ∙ rw (differ-test sent (fletcher8 (body received)) (body_changed f front back x y hx hy ne))
