-- ===== src/Proto/Payloads/Codec.antt =====
-- What every payload with an encoder promises, and the payloads of a fixed length as a family
-- (the `impl` blocks of src/proto/payloads.rs).
use web3_pi_ups_service.Prelude.{
  ℕ, ◌≡◌, refl, sym, subst, ◌∙◌, List, All, length, get_or, Result, ok, ◌>>◌, arith,
}
use web3_pi_ups_service.Proto.{proto_version}
use web3_pi_ups_service.Proto.Frame.{IsByte}
use web3_pi_ups_service.Proto.Payloads.Wire.{PayloadError, check_fixed_len, check_version}

pub record Codec : Type 1 where
  pub Payload : Type 0
  -- The ranges of the fields' types.
  pub InRange : Payload → Type 0
  -- The limits on the lengths, which `encode` checks.
  pub Fits : Payload → Type 0
  pub encode : Payload → Result (List ℕ) PayloadError
  pub decode : List ℕ → Result Payload PayloadError
  -- The buffers that hold a payload: their lengths and their version.
  pub Holds : List ℕ → Type 0

pub record IsLawful (c : Codec) : Type 0 where
  -- Every payload has an encoding, which is made of bytes and gives the payload back.
  pub encode-decode :
      (p : c.Payload)
      → c.InRange p
      → c.Fits p
      → (buf : List ℕ) × (c.encode p ≡ ok buf) × All IsByte buf × (c.decode buf ≡ ok p)
  pub encode-Fits : (p : c.Payload) (buf : List ℕ) → c.encode p ≡ ok buf → c.Fits p
  -- What is decoded from bytes is in the ranges of its fields' types.
  pub decode-InRange :
      (buf : List ℕ) (p : c.Payload) → All IsByte buf → c.decode buf ≡ ok p → c.InRange p
  -- A buffer is decoded exactly if it holds a payload.
  pub decode-Holds : (buf : List ℕ) (p : c.Payload) → c.decode buf ≡ ok p → c.Holds buf
  pub Holds-decode : (buf : List ℕ) → c.Holds buf → (p : c.Payload) × (c.decode buf ≡ ok p)

-- A payload of a fixed length: after the two checks `decode` reads the fields.
module _ {P : Type 0} (n : ℕ) (fields : List ℕ → P) where
  abbrev pub decode_fixed : List ℕ → Result P PayloadError
  unfolding check_fixed_len check_version
  decode_fixed buf = do check_fixed_len buf n; check_version (get_or buf 0 0); ok (fields buf)

  abbrev pub HoldsFixed : List ℕ → Type 0
  HoldsFixed buf = (length buf ≡ n) × (get_or buf 0 0 ≡ proto_version)

  pub decode_fixed-Holds :
      (buf : List ℕ) (p : P) → decode_fixed buf ≡ ok p → HoldsFixed buf × (fields buf ≡ p)
  unfolding check_fixed_len check_version
  decode_fixed-Holds buf p h = ground arith

  pub Holds-decode_fixed : (buf : List ℕ) → HoldsFixed buf → decode_fixed buf ≡ ok (fields buf)
  unfolding check_fixed_len check_version
  Holds-decode_fixed buf h = ground arith

  module _ (InRange : P → Type 0) (encode : P → List ℕ)
      (decode : List ℕ → Result P PayloadError) where
    abbrev pub fixed_codec : Codec
    fixed_codec = record {
      Payload = P;
      InRange = InRange;
      Fits = λ _. Unit;
      encode = λ p. ok (encode p);
      decode = decode;
      Holds = HoldsFixed;
    }

    pub fixed_codec-IsLawful :
        ((buf : List ℕ) → decode buf ≡ decode_fixed buf)
        → ((p : P) → InRange p → (decode (encode p) ≡ ok p) × (length (encode p) ≡ n))
        → ((p : P) → InRange p → All IsByte (encode p))
        → ((buf : List ℕ) → All IsByte buf → InRange (fields buf))
        → IsLawful fixed_codec
    fixed_codec-IsLawful decode_lem round_trip encode-IsByte fields-InRange = record {
      encode-decode = λ p h _. (encode p, refl, encode-IsByte p h, (round_trip p h).0);
      encode-Fits = λ p buf e. tt;
      decode-InRange = λ buf p h e.
          subst InRange (decode_fixed-Holds buf p (sym (decode_lem buf) ∙ e)).1
            (fields-InRange buf h);
      decode-Holds = λ buf p e. (decode_fixed-Holds buf p (sym (decode_lem buf) ∙ e)).0;
      Holds-decode = λ buf h. (fields buf, decode_lem buf ∙ Holds-decode_fixed buf h);
    }
