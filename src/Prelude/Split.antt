-- ===== src/Prelude/Split.antt =====
-- How Rust's standard library splits text into lines and words, on UTF-8 text.
pub mod Printed
pub mod Columns
use Prim.Native.Nat.{ℕ, zero, suc, ◌-◌}
use mathlib.Core.Bool.{Bool, true, false, ◌&&◌, ◌||◌}
use mathlib.Core.Option.{Option, none, some}
use mathlib.Core.List.{List, [], ◌∷◌}
use web3_pi_ups_service.Prelude.Tests.{◌==◌, if◌then◌else◌}
use web3_pi_ups_service.Prelude.Lists.{get_or}
use web3_pi_ups_service.Prelude.Ascii.{Text}
use web3_pi_ups_service.Prelude.Strings.{front_space}

-- A byte in front of the first line.
abbrev pub to_first : ℕ → List Text → List Text
to_first c [] = (c ∷ []) ∷ []
to_first c (l ∷ ls) = (c ∷ l) ∷ ls

-- `str::lines`: a carriage return before the end of a line belongs to it.
unfoldable pub lines : Text → List Text
lines [] = []
lines (c ∷ s) =
    let rest = lines s in
    if c == 10 then [] ∷ rest else if c == 13 && get_or s 0 0 == 10 then rest else to_first c rest

-- The words with the one that the text begins with, unless it is empty.
abbrev pub with_word : Text → List Text → List Text
with_word [] words = words
with_word (c ∷ w) words = (c ∷ w) ∷ words

-- The word that a text begins with, and the words after it, where the first `skip` bytes are the
-- rest of a white space character.
unfoldable pub words_from : ℕ → Text → Text × List Text
words_from skip [] = ([], [])
words_from (suc skip) (c ∷ s) = words_from skip s
words_from zero (c ∷ s) =
    let space = front_space (c ∷ s) in
    let r = words_from (space - 1) s in
    if space == 0 then (c ∷ r.0, r.1) else ([], with_word r.0 r.1)

-- `split_whitespace`
unfoldable pub split_whitespace : Text → List Text
unfolding words_from
split_whitespace s = let r = words_from 0 s in with_word r.0 r.1

abbrev pub first {ℓ} : {A : Type ℓ} → List A → Option A
first [] = none
first (x ∷ xs) = some x

-- `split_whitespace().next()`
unfoldable pub first_word : Text → Option Text
unfolding split_whitespace
first_word s = first (split_whitespace s)

-- `strip_prefix`, with the prefix first.
unfoldable pub strip_prefix : Text → Text → Option Text
strip_prefix [] s = some s
strip_prefix (p ∷ ps) [] = none
strip_prefix (p ∷ ps) (c ∷ s) = let rest = strip_prefix ps s in if p == c then rest else none

abbrev pub onto_first : ℕ → Option (Text × Text) → Option (Text × Text)
onto_first c none = none
onto_first c (some (front, back)) = some (c ∷ front, back)

-- `find` of an ASCII character: what stands before it, and what stands behind it.
unfoldable pub split_at : ℕ → Text → Option (Text × Text)
split_at char [] = none
split_at char (c ∷ s) =
    let rest = onto_first c (split_at char s) in if c == char then some ([], s) else rest
