-- ===== src/Proto/Payloads/SysLogV1.antt =====
-- SysLogV1: a header and a text (src/proto/payloads.rs).
use web3_pi_ups_service.Prelude.{
  ℕ, All, All-slice, ◌<◌, ◌+◌, ◌-◌, ◌%◌, ◌≤◌, ◌≡◌, List, [], ◌∷◌, ◌++◌, length, length-append,
  get_or, slice, subst, append-nil, take-append_length, ltb, if◌then◌else◌, Result, ok, err, ◌>>◌,
  arith,
}
use web3_pi_ups_service.Proto.{proto_version}
use web3_pi_ups_service.Proto.Payloads.Wire.{
  PayloadError, too_short, invalid_value, length_mismatch, check_version,
}
use web3_pi_ups_service.Proto.Payloads.Wire.{u8_lt}
use web3_pi_ups_service.Proto.Frame.{IsByte}
use web3_pi_ups_service.Proto.Payloads.Codec.{Codec, IsLawful}

pub record SysLogV1 : Type 0 where
  pub level : ℕ
  pub text : List ℕ

abbrev pub header_len : ℕ
header_len = 4

-- Appends to `out`; on an error `out` is left as it was.
unfoldable pub encode_into : SysLogV1 → List ℕ → Result (List ℕ) PayloadError
encode_into p out =
    if ltb 255 (length p.text)
    then err (invalid_value 255)
    else ok (out ++ (proto_version ∷ p.level ∷ (length p.text % 256) ∷ 0 ∷ p.text))

unfoldable pub encode : SysLogV1 → Result (List ℕ) PayloadError
unfolding encode_into
encode p = encode_into p []

unfoldable pub decode : List ℕ → Result SysLogV1 PayloadError
unfolding check_version
decode buf = if ltb (length buf) header_len then err (too_short header_len (length buf)) else do
  check_version (get_or buf 0 0)
  let text_len = get_or buf 2 0
  let remaining = length buf - header_len
  if ltb remaining text_len
      then err (length_mismatch text_len remaining)
      else ok
          (record { level = get_or buf 1 0; text = slice header_len (header_len + text_len) buf })

-- Decoding gives back every text of at most 255 bytes, and ignores what follows it.
pub sys_log_v1_round_trip :
    (p : SysLogV1) (rest : List ℕ)
    → length p.text ≤ 255
    → (bytes : List ℕ) × (encode p ≡ ok bytes) × (decode (bytes ++ rest) ≡ ok p)
unfolding encode decode
sys_log_v1_round_trip p rest h = (
  proto_version ∷ p.level ∷ (length p.text % 256) ∷ 0 ∷ p.text,
  ground arith,
  ground (
    arith,
    length-append p.text rest,
    take-append_length (4 + length p.text % 256 - 4) p.text rest,
  ),
)

-- The ranges of the fields' types.
pub record InRange (p : SysLogV1) : Type 0 where
  pub level : p.level < 256
  pub bytes : All IsByte p.text

abbrev pub Fits : SysLogV1 → Type 0
Fits p = length p.text ≤ 255

-- The fields that `decode` reads when its checks pass.
abbrev fields : List ℕ → SysLogV1
fields buf = record {
  level = get_or buf 1 0;
  text = slice header_len (header_len + get_or buf 2 0) buf;
}

pub record Holds (buf : List ℕ) : Type 0 where
  pub header : header_len ≤ length buf
  pub version : get_or buf 0 0 ≡ proto_version
  pub text : header_len + get_or buf 2 0 ≤ length buf

decode-Holds : (buf : List ℕ) (p : SysLogV1) → decode buf ≡ ok p → Holds buf × (fields buf ≡ p)
unfolding decode check_version
decode-Holds buf p e = ground arith

Holds-decode : (buf : List ℕ) → Holds buf → decode buf ≡ ok (fields buf)
unfolding decode check_version
Holds-decode buf h = ground (arith, h.header, h.version, h.text)

fields-InRange : (buf : List ℕ) → All IsByte buf → InRange (fields buf)
fields-InRange buf h = record {
  level = u8_lt buf h 1;
  bytes = All-slice IsByte header_len (header_len + get_or buf 2 0) buf h;
}

encode-IsByte : (p : SysLogV1) (buf : List ℕ) → InRange p → encode p ≡ ok buf → All IsByte buf
unfolding encode encode_into
encode-IsByte p buf h e =
    let laid : proto_version ∷ p.level ∷ (length p.text % 256) ∷ 0 ∷ p.text ≡ buf = ground arith in
    subst (All IsByte) laid (omega arith, (h.level, (omega arith, (omega arith, h.bytes))))

encode-Fits : (p : SysLogV1) (buf : List ℕ) → encode p ≡ ok buf → Fits p
unfolding encode encode_into
encode-Fits p buf e = ground arith

encode-decode :
    (p : SysLogV1)
    → InRange p
    → Fits p
    → (buf : List ℕ) × (encode p ≡ ok buf) × All IsByte buf × (decode buf ≡ ok p)
encode-decode p h k =
    let (buf, e, d) = sys_log_v1_round_trip p [] k in
    (buf, e, encode-IsByte p buf h e, subst (λ b. decode b ≡ ok p) (append-nil buf) d)

abbrev pub codec : Codec
codec = record {
  Payload = SysLogV1;
  InRange = InRange;
  Fits = Fits;
  encode = encode;
  decode = decode;
  Holds = Holds;
}

pub codec-IsLawful : IsLawful codec
codec-IsLawful = record {
  encode-decode = encode-decode;
  encode-Fits = encode-Fits;
  decode-InRange = λ buf p h e. subst InRange (decode-Holds buf p e).1 (fields-InRange buf h);
  decode-Holds = λ buf p e. (decode-Holds buf p e).0;
  Holds-decode = λ buf h. (fields buf, Holds-decode buf h);
}
