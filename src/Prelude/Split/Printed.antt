-- ===== src/Prelude/Split/Printed.antt =====
-- Lines and words of text that was put together from lines and words.
use Prim.Native.Nat.{ℕ, zero, suc, ◌≤◌}
use mathlib.Core.Path.{◌≡◌, refl, sym, ap, ◌∙◌}
use mathlib.Core.Bool.{false}
use mathlib.Core.Logic.{◌≢◌}
use mathlib.Core.Option.{some}
use mathlib.Core.List.{List, [], ◌∷◌, ◌++◌, append-nil, append_assoc}
use native.Mathlib.Omega.{arith}
use web3_pi_ups_service.Prelude.Tests.{◌==◌}
use web3_pi_ups_service.Prelude.Lists.{All}
use web3_pi_ups_service.Prelude.Ascii.{Text}
use web3_pi_ups_service.Prelude.Strings.{front_space}
use web3_pi_ups_service.Prelude.Decimal.{show, repeat}
use web3_pi_ups_service.Prelude.Decimal.RoundTrip.{IsDigit, IsNumeral, show-IsNumeral}
use web3_pi_ups_service.Prelude.Split.{
  to_first, lines, with_word, words_from, split_whitespace, split_at, strip_prefix,
}

-- No line ends within a text.
abbrev pub IsLine : Text → Type 0
IsLine s = All (λ c. (c ≢ 10) × (c ≢ 13)) s

-- A printable ASCII character that is not a space.
abbrev pub IsGraphic : ℕ → Type 0
IsGraphic c = (33 ≤ c) × (c ≤ 126)

abbrev pub IsWord : Text → Type 0
IsWord [] = ⊥
IsWord (c ∷ w) = IsGraphic c × All IsGraphic w

-- The first line of a text that begins with it.
pub lines-line : (l s : Text) → IsLine l → lines (l ++ (10 ∷ s)) ≡ l ∷ lines s
unfolding lines
lines-line [] s h = refl
lines-line (c ∷ l) s ((no_lf, no_cr), h) =
    let lf : (c == 10) ≡ false = ground arith in
    let cr : (c == 13) ≡ false = ground arith in
    rw (lf, cr) (ap (λ t. to_first c t) (lines-line l s h))

-- White space of a single byte in front.
front_space-graphic : (c : ℕ) (s : Text) → IsGraphic c → front_space (c ∷ s) ≡ 0
front_space-graphic c s h = ground arith

words_from-word :
    (w s : Text)
    → All IsGraphic w
    → words_from 0 (w ++ s) ≡ (w ++ (words_from 0 s).0, (words_from 0 s).1)
unfolding words_from
words_from-word [] s h = refl
words_from-word (c ∷ w) s (g, h) = rw (front_space-graphic c (w ++ s) g, words_from-word w s h) refl

with_word-append : (w : Text) (ws : List Text) → IsWord w → with_word (w ++ []) ws ≡ w ∷ ws
with_word-append [] ws h = elim h [ ]
with_word-append (c ∷ w) ws h = ap (λ t. (c ∷ t) ∷ ws) (append-nil w)

IsWord-IsGraphic : (w : Text) → IsWord w → All IsGraphic w
IsWord-IsGraphic [] h = elim h [ ]
IsWord-IsGraphic (c ∷ w) h = h

-- A space in front of words is passed over, and it ends a word.
pub split_whitespace-space : (s : Text) → split_whitespace (32 ∷ s) ≡ split_whitespace s
unfolding split_whitespace words_from
split_whitespace-space s = refl

pub split_whitespace-word :
    (w s : Text) → IsWord w → split_whitespace (w ++ (32 ∷ s)) ≡ w ∷ split_whitespace s
unfolding split_whitespace words_from
split_whitespace-word w s h =
    ap (λ r. with_word r.0 r.1) (words_from-word w (32 ∷ s) (IsWord-IsGraphic w h))
    ∙ with_word-append w (split_whitespace s) h

pub split_whitespace-last : (w : Text) → IsWord w → split_whitespace w ≡ w ∷ []
unfolding split_whitespace words_from
split_whitespace-last w h =
    ap split_whitespace (sym (append-nil w))
    ∙ ap (λ r. with_word r.0 r.1) (words_from-word w [] (IsWord-IsGraphic w h))
    ∙ with_word-append w [] h

-- Spaces in front of text.
pub split_whitespace-repeat :
    (n : ℕ) (s : Text) → split_whitespace (repeat 32 n ++ s) ≡ split_whitespace s
split_whitespace-repeat zero s = refl
split_whitespace-repeat (suc n) s =
    split_whitespace-space (repeat 32 n ++ s) ∙ split_whitespace-repeat n s

IsDigit-IsGraphic : (s : Text) → All IsDigit s → All IsGraphic s
IsDigit-IsGraphic [] h = tt
IsDigit-IsGraphic (c ∷ s) ((lo, hi), h) = ((omega arith, omega arith), IsDigit-IsGraphic s h)

IsNumeral-IsWord : (s : Text) → IsNumeral s → IsWord s
IsNumeral-IsWord [] h = h
IsNumeral-IsWord (c ∷ s) h = IsDigit-IsGraphic (c ∷ s) h

pub show-IsWord : (n : ℕ) → IsWord (show n)
show-IsWord n = IsNumeral-IsWord (show n) (show-IsNumeral n)

pub IsGraphic-IsLine : (s : Text) → All IsGraphic s → IsLine s
IsGraphic-IsLine [] h = tt
IsGraphic-IsLine (c ∷ s) ((lo, hi), h) =
    (((λ e. omega arith), (λ e. omega arith)), IsGraphic-IsLine s h)

pub IsWord-IsLine : (w : Text) → IsWord w → IsLine w
IsWord-IsLine w h = IsGraphic-IsLine w (IsWord-IsGraphic w h)

pub repeat-IsLine : (n : ℕ) → IsLine (repeat 32 n)
repeat-IsLine zero = tt
repeat-IsLine (suc n) = (((λ e. omega arith), (λ e. omega arith)), repeat-IsLine n)

-- A text of lines, each with its end.
abbrev pub unlines : List Text → Text
unlines [] = []
unlines (l ∷ ls) = l ++ (10 ∷ unlines ls)

pub lines-unlines :
    (ls : List Text) (s : Text) → All IsLine ls → lines (unlines ls ++ s) ≡ ls ++ lines s
lines-unlines [] s h = refl
lines-unlines (l ∷ ls) s (is_line, h) =
    ap lines (append_assoc l (10 ∷ unlines ls) s)
    ∙ lines-line l (unlines ls ++ s) is_line
    ∙ ap (λ t. l ∷ t) (lines-unlines ls s h)

-- A prefix that stands there is stripped, and a character is found where it stands first.
pub strip_prefix-append : (p s : Text) → strip_prefix p (p ++ s) ≡ some s
unfolding strip_prefix
strip_prefix-append [] s = refl
strip_prefix-append (c ∷ p) s = ground (arith, strip_prefix-append p s)

pub split_at-append :
    (char : ℕ) (front back : Text)
    → All (λ c. c ≢ char) front
    → split_at char (front ++ (char ∷ back)) ≡ some (front, back)
unfolding split_at
split_at-append char [] back h = ground arith
split_at-append char (c ∷ front) back (other, h) =
    let ne : (c == char) ≡ false = ground arith in rw (ne, split_at-append char front back h) refl
