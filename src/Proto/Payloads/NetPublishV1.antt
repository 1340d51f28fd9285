-- ===== src/Proto/Payloads/NetPublishV1.antt =====
-- `net.publish` REQ: a header, a topic and a payload (src/proto/payloads.rs).
use web3_pi_ups_service.Prelude.{
  ℕ, All, All-slice, All-append, subst, append-nil, ◌+◌, ◌-◌, ◌%◌, ◌≤◌, ◌<◌, ◌≡◌, ap, ◌∙◌, List, [],
  ◌∷◌, ◌++◌, append_assoc, length, length-append, get_or, slice, take-append_length,
  drop-append_length, drop, ltb, if◌then◌else◌, Result, ok, err, ◌>>◌, arith,
}
use web3_pi_ups_service.Proto.{proto_version}
use web3_pi_ups_service.Proto.Payloads.Wire.{
  PayloadError, too_short, invalid_value, length_mismatch, check_version, byte0, byte1, from_le16,
}
use web3_pi_ups_service.Proto.Payloads.Wire.{u8_lt}
use web3_pi_ups_service.Proto.Frame.{IsByte}
use web3_pi_ups_service.Proto.Payloads.Codec.{Codec, IsLawful}

pub record NetPublishV1 : Type 0 where
  pub qos : ℕ
  pub retain : ℕ
  pub topic : List ℕ
  pub payload : List ℕ

abbrev pub header_len : ℕ
header_len = 6

abbrev pub max_topic_len : ℕ
max_topic_len = 200

-- The six header bytes.
abbrev header : NetPublishV1 → List ℕ
header p =
    proto_version
    ∷ p.qos
    ∷ p.retain
    ∷ (length p.topic % 256)
    ∷ byte0 (length p.payload % 65536)
    ∷ byte1 (length p.payload % 65536)
    ∷ []

-- Appends to `out`; on an error `out` is left as it was.
unfoldable pub encode_into : NetPublishV1 → List ℕ → Result (List ℕ) PayloadError
encode_into p out =
    if ltb max_topic_len (length p.topic)
    then err (invalid_value 200)
    else if ltb 65535 (length p.payload)
    then err (invalid_value 65535)
    else ok (out ++ (header p ++ (p.topic ++ p.payload)))

unfoldable pub encode : NetPublishV1 → Result (List ℕ) PayloadError
unfolding encode_into
encode p = encode_into p []

unfoldable pub decode : List ℕ → Result NetPublishV1 PayloadError
unfolding check_version
decode buf = if ltb (length buf) header_len then err (too_short header_len (length buf)) else do
  check_version (get_or buf 0 0)
  let topic_len = get_or buf 3 0
  let payload_len = from_le16 (get_or buf 4 0) (get_or buf 5 0)
  let topic_end = header_len + topic_len
  if ltb (length buf) (header_len + topic_len + payload_len)
      then err (length_mismatch (topic_len + payload_len) (length buf - header_len))
      else ok (record {
        qos = get_or buf 1 0;
        retain = get_or buf 2 0;
        topic = slice header_len topic_end buf;
        payload = slice topic_end (topic_end + payload_len) buf;
      })

drop_topic :
    (p : NetPublishV1) (rest : List ℕ)
    → drop (6 + length p.topic) (header p ++ (p.topic ++ (p.payload ++ rest))) ≡ p.payload ++ rest
drop_topic p rest =
    drop-append_length (6 + length p.topic) (header p ++ p.topic) (p.payload ++ rest) (omega arith)

decode-laid_out :
    (p : NetPublishV1) (rest : List ℕ)
    → length p.topic ≤ max_topic_len
    → length p.payload < 65536
    → decode (header p ++ (p.topic ++ (p.payload ++ rest))) ≡ ok p
unfolding decode
decode-laid_out p rest h k =
    let t = length p.topic in
    let n = length p.payload in
    ground (
      arith,
      length-append p.topic (p.payload ++ rest),
      length-append p.payload rest,
      drop_topic p rest,
      take-append_length (6 + t - 6) p.topic (p.payload ++ rest),
      take-append_length (6 + t + n - (6 + t)) p.payload rest,
    )

-- Decoding gives back every message whose topic has at most 200 bytes and whose payload fits 16
-- bits, and ignores what follows it.
pub net_publish_v1_round_trip :
    (p : NetPublishV1) (rest : List ℕ)
    → length p.topic ≤ max_topic_len
    → length p.payload < 65536
    → (bytes : List ℕ) × (encode p ≡ ok bytes) × (decode (bytes ++ rest) ≡ ok p)
unfolding encode
net_publish_v1_round_trip p rest h k = (
  header p ++ (p.topic ++ p.payload),
  ground arith,
  ap (λ t. decode (header p ++ t)) (append_assoc p.topic p.payload rest)
      ∙ decode-laid_out p rest h k,
)

-- The ranges of the fields' types.
pub record InRange (p : NetPublishV1) : Type 0 where
  pub qos : p.qos < 256
  pub retain : p.retain < 256
  pub topic : All IsByte p.topic
  pub payload : All IsByte p.payload

abbrev pub Fits : NetPublishV1 → Type 0
Fits p = (length p.topic ≤ max_topic_len) × (length p.payload < 65536)

-- The fields that `decode` reads when its checks pass.
abbrev fields : List ℕ → NetPublishV1
fields buf =
    let topic_end = header_len + get_or buf 3 0 in
    let payload_len = from_le16 (get_or buf 4 0) (get_or buf 5 0) in
    record {
      qos = get_or buf 1 0;
      retain = get_or buf 2 0;
      topic = slice header_len topic_end buf;
      payload = slice topic_end (topic_end + payload_len) buf;
    }

-- The topic may be longer than `encode` lets it be.
pub record Holds (buf : List ℕ) : Type 0 where
  pub header : header_len ≤ length buf
  pub version : get_or buf 0 0 ≡ proto_version
  pub body : header_len + get_or buf 3 0 + from_le16 (get_or buf 4 0) (get_or buf 5 0) ≤ length buf

decode-Holds : (buf : List ℕ) (p : NetPublishV1) → decode buf ≡ ok p → Holds buf × (fields buf ≡ p)
unfolding decode check_version
decode-Holds buf p e = ground arith

Holds-decode : (buf : List ℕ) → Holds buf → decode buf ≡ ok (fields buf)
unfolding decode check_version
Holds-decode buf h = ground (arith, h.header, h.version, h.body)

fields-InRange : (buf : List ℕ) → All IsByte buf → InRange (fields buf)
fields-InRange buf h =
    let topic_end = header_len + get_or buf 3 0 in
    let payload_len = from_le16 (get_or buf 4 0) (get_or buf 5 0) in
    record {
      qos = u8_lt buf h 1;
      retain = u8_lt buf h 2;
      topic = All-slice IsByte header_len topic_end buf h;
      payload = All-slice IsByte topic_end (topic_end + payload_len) buf h;
    }

encode-IsByte : (p : NetPublishV1) (buf : List ℕ) → InRange p → encode p ≡ ok buf → All IsByte buf
unfolding encode encode_into
encode-IsByte p buf h e =
    let laid : header p ++ (p.topic ++ p.payload) ≡ buf = ground arith in
    let header_bytes : All IsByte (header p) =
      (omega arith, (h.qos, (h.retain, (omega arith, (omega arith, (omega arith, tt)))))) in
    subst (All IsByte) laid (
      All-append IsByte (header p) (p.topic ++ p.payload) header_bytes
        (All-append IsByte p.topic p.payload h.topic h.payload))

encode-Fits : (p : NetPublishV1) (buf : List ℕ) → encode p ≡ ok buf → Fits p
unfolding encode encode_into
encode-Fits p buf e = ground arith

encode-decode :
    (p : NetPublishV1)
    → InRange p
    → Fits p
    → (buf : List ℕ) × (encode p ≡ ok buf) × All IsByte buf × (decode buf ≡ ok p)
encode-decode p h (k, l) =
    let (buf, e, d) = net_publish_v1_round_trip p [] k l in
    (buf, e, encode-IsByte p buf h e, subst (λ b. decode b ≡ ok p) (append-nil buf) d)

abbrev pub codec : Codec
codec = record {
  Payload = NetPublishV1;
  InRange = InRange;
  Fits = Fits;
  encode = encode;
  decode = decode;
  Holds = Holds;
}

pub codec-IsLawful : IsLawful codec
codec-IsLawful = record {
  encode-decode = encode-decode;
  encode-Fits = encode-Fits;
  decode-InRange = λ buf p h e. subst InRange (decode-Holds buf p e).1 (fields-InRange buf h);
  decode-Holds = λ buf p e. (decode-Holds buf p e).0;
  Holds-decode = λ buf h. (fields buf, Holds-decode buf h);
}
