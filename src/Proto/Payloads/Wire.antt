-- ===== src/Proto/Payloads/Wire.antt =====
-- What all payloads share (src/proto/payloads.rs): errors, checks and little-endian numbers.
use web3_pi_ups_service.Prelude.{
  ℕ, ◌+◌, ◌*◌, ◌/◌, ◌%◌, ◌<◌, ◌≡◌, ◌==◌, if◌then◌else◌, List, length, Result, ok, err, arith, ap,
  ◌∙◌, suc, All, All-get_or, get_or,
}
use web3_pi_ups_service.Prelude.Int.{
  ℤ, IsI16, i16_of_bits, bits_of_i16, i16_of_bits-bits_of_i16, pos, negsuc, IsI8, i8_of_bits,
  i8_of_bits-IsI8, i16_of_bits-IsI16,
}
use web3_pi_ups_service.Proto.{proto_version}
use web3_pi_ups_service.Proto.Frame.{IsByte}
pub use web3_pi_ups_service.Proto.Frame.{from_le16}

-- `UnsupportedVersion { got, expected }`, and so on, with the fields in the source's order.
-- An `InvalidValue` names the limit that was passed, in bytes.
pub data PayloadError : Type 0 where
  unexpected_length : (expected got : ℕ) → PayloadError
  too_short : (needed got : ℕ) → PayloadError
  unsupported_version : (got expected : ℕ) → PayloadError
  invalid_value : (limit : ℕ) → PayloadError
  length_mismatch : (declared remaining : ℕ) → PayloadError

unfoldable pub check_version : ℕ → Result (Unit {0}) PayloadError
check_version b = if b == proto_version then ok tt else err (unsupported_version b proto_version)

unfoldable pub check_fixed_len : List ℕ → ℕ → Result (Unit {0}) PayloadError
check_fixed_len buf expected =
    if length buf == expected then ok tt else err (unexpected_length expected (length buf))

-- The bytes of `to_le_bytes`.
abbrev pub byte0 : ℕ → ℕ
byte0 n = n % 256

abbrev pub byte1 : ℕ → ℕ
byte1 n = n / 256 % 256

abbrev pub byte2 : ℕ → ℕ
byte2 n = n / 65536 % 256

abbrev pub byte3 : ℕ → ℕ
byte3 n = n / 16777216 % 256

-- `u32::from_le_bytes`
abbrev pub from_le32 : ℕ → ℕ → ℕ → ℕ → ℕ
from_le32 a b c d = a + 256 * b + 65536 * c + 16777216 * d

pub le16 : (n : ℕ) → n < 65536 → from_le16 (byte0 n) (byte1 n) ≡ n
le16 n h = omega arith

pub le32 : (n : ℕ) → n < 4294967296 → from_le32 (byte0 n) (byte1 n) (byte2 n) (byte3 n) ≡ n
le32 n h = omega arith

bits_of_i16_lt : (a : ℤ) → IsI16 a → bits_of_i16 a < 65536
bits_of_i16_lt (pos n) h = omega arith
bits_of_i16_lt (negsuc n) h = omega arith

pub le_i16 :
    (a : ℤ) → IsI16 a → i16_of_bits (from_le16 (byte0 (bits_of_i16 a)) (byte1 (bits_of_i16 a))) ≡ a
le_i16 a h =
    ap i16_of_bits (le16 (bits_of_i16 a) (bits_of_i16_lt a h)) ∙ i16_of_bits-bits_of_i16 a h

-- What is read from bytes fits the type it is read as.
module _ (buf : List ℕ) (h : All IsByte buf) where
  pub u8_lt : (i : ℕ) → get_or buf i 0 < 256
  u8_lt i = All-get_or IsByte buf i 0 h (omega arith)

  pub u16_lt : (i : ℕ) → from_le16 (get_or buf i 0) (get_or buf (suc i) 0) < 65536
  u16_lt i = omega (arith, u8_lt i, u8_lt (suc i))

  pub u32_lt :
      (i : ℕ)
      → from_le32
          (get_or buf i 0)
          (get_or buf (1 + i) 0)
          (get_or buf (2 + i) 0)
          (get_or buf (3 + i) 0)
        < 4294967296
  u32_lt i = omega (arith, u8_lt i, u8_lt (1 + i), u8_lt (2 + i), u8_lt (3 + i))

  pub signed_byte : (i : ℕ) → IsI8 (i8_of_bits (get_or buf i 0))
  signed_byte i = i8_of_bits-IsI8 (get_or buf i 0) (u8_lt i)

  pub signed_word :
      (i : ℕ) → IsI16 (i16_of_bits (from_le16 (get_or buf i 0) (get_or buf (suc i) 0)))
  signed_word i = i16_of_bits-IsI16 (from_le16 (get_or buf i 0) (get_or buf (suc i) 0)) (u16_lt i)
