-- ===== src/UnitTests/Payloads.antt =====
-- What the tests of the payloads share (src/proto/payloads.rs, module tests).
pub mod Fixed
pub mod Texts
pub mod Errors
pub mod PowerV2
use web3_pi_ups_service.Prelude.{ℕ, ◌≡◌, Bool, true, false, List, Result, ok, err}
use web3_pi_ups_service.Proto.Payloads.Wire.{
  PayloadError, unexpected_length, unsupported_version, invalid_value, length_mismatch,
}

abbrev pub RoundTrip : {A : Type 0} → A → (A → List ℕ) → (List ℕ → Result A PayloadError) → Type 0
RoundTrip orig encode decode = decode (encode orig) ≡ ok orig

-- `matches!(r, Err(..))`, for the errors that pass a test.
abbrev pub IsErr : {A : Type 0} → (PayloadError → Bool) → Result A PayloadError → Type 0
IsErr test (ok a) = ⊥
IsErr test (err e) = test e ≡ true

abbrev pub is_unexpected_length : PayloadError → Bool
is_unexpected_length (unexpected_length expected got) = true
is_unexpected_length _ = false

abbrev pub is_unsupported_version : PayloadError → Bool
is_unsupported_version (unsupported_version got expected) = true
is_unsupported_version _ = false

abbrev pub is_invalid_value : PayloadError → Bool
is_invalid_value (invalid_value limit) = true
is_invalid_value _ = false

abbrev pub is_length_mismatch : PayloadError → Bool
is_length_mismatch (length_mismatch declared remaining) = true
is_length_mismatch _ = false
