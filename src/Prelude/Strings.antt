-- ===== src/Prelude/Strings.antt =====
-- The string operations of Rust's standard library that the agent calls, on UTF-8 text.
pub mod Trim
use Prim.Native.Nat.{ℕ, zero, suc}
use mathlib.Core.Bool.{Bool, true, false, ◌&&◌, ◌||◌}
use mathlib.Core.List.{[], ◌∷◌}
use mathlib.Core.List.{reverse}
use web3_pi_ups_service.Prelude.Tests.{leb, ◌==◌, if◌then◌else◌}
use web3_pi_ups_service.Prelude.Lists.{length, get_or, drop}
use web3_pi_ups_service.Prelude.Ascii.{Text}

-- `str::starts_with`, with the prefix first.
abbrev pub starts_with : Text → Text → Bool
starts_with [] s = true
starts_with (p ∷ ps) [] = false
starts_with (p ∷ ps) (c ∷ s) = p == c && starts_with ps s

-- `str::contains`, with the pattern first.
abbrev pub contains_text : Text → Text → Bool
contains_text pattern [] = starts_with pattern []
contains_text pattern (c ∷ s) = starts_with pattern (c ∷ s) || contains_text pattern s

-- The characters of `char::is_whitespace`, by the bytes of their encoding.
abbrev space1 : ℕ → Bool
space1 a = leb 0x09 a && leb a 0x0d || a == 0x20

abbrev space2 : ℕ → ℕ → Bool
space2 a b = a == 0xc2 && (b == 0x85 || b == 0xa0)

abbrev space3 : ℕ → ℕ → ℕ → Bool
space3 a b c =
    (a == 0xe1 && b == 0x9a && c == 0x80)
    || (a == 0xe2
        && b == 0x80
        && ((leb 0x80 c && leb c 0x8a) || (c == 0xa8 || (c == 0xa9 || c == 0xaf))))
    || (a == 0xe2 && b == 0x81 && c == 0x9f)
    || (a == 0xe3 && b == 0x80 && c == 0x80)

-- How many bytes the white space character takes that the text begins with; 0 if there is none.
abbrev pub front_space : Text → ℕ
front_space s =
    if space1 (get_or s 0 0)
    then 1
    else if space2 (get_or s 0 0) (get_or s 1 0)
    then 2
    else if space3 (get_or s 0 0) (get_or s 1 0) (get_or s 2 0)
    then 3
    else 0

-- The same at the end of a text whose bytes stand in reverse.
abbrev back_space : Text → ℕ
back_space s =
    if space1 (get_or s 0 0)
    then 1
    else if space2 (get_or s 1 0) (get_or s 0 0)
    then 2
    else if space3 (get_or s 2 0) (get_or s 1 0) (get_or s 0 0)
    then 3
    else 0

-- Every round but the last drops a byte, so that the length of the text is fuel enough.
abbrev strip : (Text → ℕ) → ℕ → Text → Text
strip space zero s = s
strip space (suc fuel) s =
    let rest = strip space fuel (drop (space s) s) in if space s == 0 then s else rest

-- `str::trim`
unfoldable pub trim : Text → Text
trim s =
    let front = strip front_space (length s) s in
    reverse (strip back_space (length front) (reverse front))
