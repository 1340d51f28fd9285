-- ===== src/Prelude/Decimal.antt =====
-- Decimal numbers as text: what `{}` and `{:0w}` print, and what `parse` reads.
pub mod RoundTrip
use Prim.Native.Nat.{ℕ, zero, suc, ◌+◌, ◌-◌, ◌*◌, ◌/◌, ◌%◌, ◌<◌}
use mathlib.Core.Bool.{Bool, true, false, ◌&&◌, ◌||◌}
use mathlib.Core.Option.{Option, none, some}
use mathlib.Core.List.{List, [], ◌∷◌, ◌++◌}
use web3_pi_ups_service.Prelude.Tests.{ltb, leb, ◌==◌, if◌then◌else◌}
use web3_pi_ups_service.Prelude.Lists.{length}
use web3_pi_ups_service.Prelude.Ascii.{Text}
use web3_pi_ups_service.Prelude.Int.{ℤ, pos, negsuc, sub_ℕ}

-- The digits of `n` in front of `out`; a round for each digit.
unfoldable pub show_digits : ℕ → ℕ → Text → Text
show_digits zero n out = out
show_digits (suc fuel) n out =
    let shown = (48 + n % 10) ∷ out in
    let rest = show_digits fuel (n / 10) shown in if n / 10 == 0 then shown else rest

-- No integer of the program has more than 20 digits.
unfoldable pub show : ℕ → Text
unfolding show_digits
show n = show_digits 20 n []

unfoldable pub show_ℤ : ℤ → Text
unfolding show
show_ℤ (pos n) = show n
show_ℤ (negsuc n) = 45 ∷ show (suc n)

abbrev pub repeat : ℕ → ℕ → Text
repeat c zero = []
repeat c (suc n) = c ∷ repeat c n

-- `{:0w}`
unfoldable pub show_padded : ℕ → ℕ → Text
unfolding show
show_padded w n = repeat 48 (w - length (show n)) ++ show n

abbrev pub is_digit : ℕ → Bool
is_digit c = leb 48 c && leb c 57

-- `from_str_radix` over digits alone, for numbers up to `max`: an overflow is an error.
unfoldable pub read_digits : ℕ → ℕ → Text → Option ℕ
read_digits max n [] = some n
read_digits max n (c ∷ s) =
    let m = n * 10 + (c - 48) in
    let rest = read_digits max m s in if is_digit c && leb m max then rest else none

-- A text of one digit at least.
abbrev read_some : ℕ → Text → Option ℕ
read_some max [] = none
read_some max (c ∷ s) = read_digits max 0 (c ∷ s)

-- `parse::<u64>()` and its kin, for numbers up to `max`; a plus sign may stand in front.
unfoldable pub parse_uint : ℕ → Text → Option ℕ
unfolding read_digits
parse_uint max [] = none
parse_uint max (c ∷ s) = if c == 43 then read_some max s else read_some max (c ∷ s)

-- `parse::<i32>()` and its kin, for numbers from `- (max + 1)` to `max`.
unfoldable pub parse_int : ℕ → Text → Option ℤ
unfolding read_digits
parse_int max [] = none
parse_int max (c ∷ s) =
    if c == 45
    then elim (read_some (suc max) s) [ none ↦ none | some n ↦ some (sub_ℕ 0 n) ]
    else elim (if c == 43 then read_some max s else read_some max (c ∷ s)) [
      | none ↦ none
      | some n ↦ some (pos n)
    ]
