-- ===== src/Prelude/Int.antt =====
-- Signed integers over the native numbers, and the two's complement reading of machine words.
use Prim.Native.Nat.{ℕ, suc, ◌+◌, ◌-◌, ◌*◌, ◌/◌, ◌≤◌, ◌<◌}
use mathlib.Core.Path.{◌≡◌}
use mathlib.Core.Bool.{Bool}
use native.Mathlib.Omega.{arith}
use web3_pi_ups_service.Prelude.Tests.{ltb, leb, if◌then◌else◌}

-- `negsuc n` is -(n + 1).
pub data ℤ : Type 0 where
  pos : ℕ → ℤ
  negsuc : ℕ → ℤ

abbrev pub pos_part : ℤ → ℕ
pos_part (pos n) = n
pos_part (negsuc n) = 0

abbrev pub neg_part : ℤ → ℕ
neg_part (pos n) = 0
neg_part (negsuc n) = suc n

infix 50 ◌≤ℤ◌
abbrev pub ◌≤ℤ◌ : ℤ → ℤ → Type 0
a ≤ℤ b = pos_part a + neg_part b ≤ pos_part b + neg_part a

abbrev pub leb_ℤ : ℤ → ℤ → Bool
leb_ℤ a b = leb (pos_part a + neg_part b) (pos_part b + neg_part a)

-- a - b of two numbers, as an integer.
abbrev pub sub_ℕ : ℕ → ℕ → ℤ
sub_ℕ a b = if leb b a then pos (a - b) else negsuc (b - a - 1)

infixl 65 ◌+ℤ◌ ◌-ℤ◌
abbrev pub ◌+ℤ◌ : ℤ → ℤ → ℤ
a +ℤ b = sub_ℕ (pos_part a + pos_part b) (neg_part a + neg_part b)

abbrev pub ◌-ℤ◌ : ℤ → ℤ → ℤ
a -ℤ b = sub_ℕ (pos_part a + neg_part b) (neg_part a + pos_part b)

-- The product with a number, and the quotient by one that is not 0, which Rust's `/` rounds
-- towards zero.
infixl 70 ◌*ℕ◌ ◌/ℕ◌
abbrev pub ◌*ℕ◌ : ℤ → ℕ → ℤ
a *ℕ n = sub_ℕ (pos_part a * n) (neg_part a * n)

abbrev pub ◌/ℕ◌ : ℤ → ℕ → ℤ
a /ℕ n = sub_ℕ (pos_part a / n) (neg_part a / n)

-- Rust's `Ord::max`
abbrev pub max_ℤ : ℤ → ℤ → ℤ
max_ℤ a b = if leb_ℤ a b then b else a

-- The value of an `i16` with the bit pattern `w`, and of an `i8`.
abbrev pub i16_of_bits : ℕ → ℤ
i16_of_bits w = if ltb w 32768 then pos w else negsuc (65535 - w)

abbrev pub i8_of_bits : ℕ → ℤ
i8_of_bits w = if ltb w 128 then pos w else negsuc (255 - w)

-- The bit pattern of an `i16`, and of an `i8`.
abbrev pub bits_of_i16 : ℤ → ℕ
bits_of_i16 (pos n) = n
bits_of_i16 (negsuc n) = 65535 - n

abbrev pub bits_of_i8 : ℤ → ℕ
bits_of_i8 (pos n) = n
bits_of_i8 (negsuc n) = 255 - n

abbrev pub IsI16 : ℤ → Type 0
IsI16 a = (pos_part a < 32768) × (neg_part a ≤ 32768)

abbrev pub IsI8 : ℤ → Type 0
IsI8 a = (pos_part a < 128) × (neg_part a ≤ 128)

pub i16_of_bits-bits_of_i16 : (a : ℤ) → IsI16 a → i16_of_bits (bits_of_i16 a) ≡ a
i16_of_bits-bits_of_i16 (pos n) h = ground arith
i16_of_bits-bits_of_i16 (negsuc n) h = ground arith

pub i8_of_bits-bits_of_i8 : (a : ℤ) → IsI8 a → i8_of_bits (bits_of_i8 a) ≡ a
i8_of_bits-bits_of_i8 (pos n) h = ground arith
i8_of_bits-bits_of_i8 (negsuc n) h = ground arith

-- A word reads as an integer of its type.
pub i16_of_bits-IsI16 : (w : ℕ) → w < 65536 → IsI16 (i16_of_bits w)
i16_of_bits-IsI16 w h = ground arith

pub i8_of_bits-IsI8 : (w : ℕ) → w < 256 → IsI8 (i8_of_bits w)
i8_of_bits-IsI8 w h = ground arith
