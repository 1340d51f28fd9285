-- ===== src/Prelude/Split/Columns.antt =====
-- Numbers printed in columns.
use Prim.Native.Nat.{ℕ, zero, suc, ◌<◌}
use mathlib.Core.Path.{◌≡◌, refl, sym, ap, ◌∙◌}
use mathlib.Core.List.{List, [], ◌∷◌, ◌++◌, map, append-nil}
use native.Mathlib.Omega.{arith}
use web3_pi_ups_service.Prelude.Lists.{All-append, length, get_or}
use web3_pi_ups_service.Prelude.Ascii.{Text}
use web3_pi_ups_service.Prelude.Decimal.{show, repeat}
use web3_pi_ups_service.Prelude.Split.{split_whitespace}
use web3_pi_ups_service.Prelude.Split.Printed.{
  IsLine, split_whitespace-space, split_whitespace-word, split_whitespace-last,
  split_whitespace-repeat, show-IsWord, IsWord-IsLine, repeat-IsLine,
}

-- A space and further ones in front of each number.
abbrev pub columns : List (ℕ × ℕ) → Text
columns [] = []
columns ((pad, n) ∷ rest) = 32 ∷ (repeat 32 pad ++ (show n ++ columns rest))

abbrev pub numbers : List (ℕ × ℕ) → List ℕ
numbers [] = []
numbers ((pad, n) ∷ rest) = n ∷ numbers rest

split_whitespace-number :
    (n : ℕ) (rest : List (ℕ × ℕ))
    → split_whitespace (columns rest) ≡ map show (numbers rest)
    → split_whitespace (show n ++ columns rest) ≡ show n ∷ map show (numbers rest)
split_whitespace-number n [] ih =
    ap split_whitespace (append-nil (show n)) ∙ split_whitespace-last (show n) (show-IsWord n)
split_whitespace-number n ((pad, m) ∷ rest) ih =
    split_whitespace-word (show n) _ (show-IsWord n)
    ∙ ap (λ t. show n ∷ t) (sym (split_whitespace-space _) ∙ ih)

-- The words of columns are the numbers in them.
pub split_whitespace-columns :
    (cols : List (ℕ × ℕ)) → split_whitespace (columns cols) ≡ map show (numbers cols)
split_whitespace-columns [] = unfold split_whitespace in refl
split_whitespace-columns ((pad, n) ∷ rest) =
    split_whitespace-space _
    ∙ split_whitespace-repeat pad _
    ∙ split_whitespace-number n rest (split_whitespace-columns rest)

pub columns-IsLine : (cols : List (ℕ × ℕ)) → IsLine (columns cols)
columns-IsLine [] = tt
columns-IsLine ((pad, n) ∷ rest) = (
  ((λ e. omega arith), (λ e. omega arith)),
  All-append _ (repeat 32 pad) _ (repeat-IsLine pad)
      (All-append _ (show n) _ (IsWord-IsLine (show n) (show-IsWord n)) (columns-IsLine rest)),
)

pub length-map : (ns : List ℕ) → length (map show ns) ≡ length ns
length-map [] = refl
length-map (n ∷ ns) = ap suc (length-map ns)

pub get_or-map :
    (ns : List ℕ) (i : ℕ) → i < length ns → get_or (map show ns) i [] ≡ show (get_or ns i 0)
get_or-map [] i h = elim h [ ]
get_or-map (n ∷ ns) zero h = refl
get_or-map (n ∷ ns) (suc i) h = get_or-map ns i (omega arith)
