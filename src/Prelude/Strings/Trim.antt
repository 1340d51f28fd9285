-- ===== src/Prelude/Strings/Trim.antt =====
-- What `str::trim` leaves.
use Prim.Native.Nat.{ℕ, zero, suc, ◌+◌, ◌-◌, ◌<◌, ◌≤◌}
use mathlib.Core.Path.{◌≡◌, refl, sym, ap, ◌∙◌}
use mathlib.Core.Logic.{inl, inr}
use mathlib.Core.List.{
  [], ◌∷◌, ◌++◌, reverse, reverse_aux, reverse-reverse, reverse-append, append_assoc,
}
use native.Mathlib.Omega.{arith}
use web3_pi_ups_service.Prelude.Tests.{◌==◌, Bool-cases}
use web3_pi_ups_service.Prelude.Lists.{length, take, drop, All, length-drop, take-append-drop}
use web3_pi_ups_service.Prelude.Ascii.{Text}
use web3_pi_ups_service.Prelude.Decimal.{repeat}
use web3_pi_ups_service.Prelude.Split.Printed.{IsGraphic}
use web3_pi_ups_service.Prelude.Strings.{front_space, back_space, strip, trim}

-- With the length as fuel, or more, no white space is left in front.
strip_stops :
    (space : Text → ℕ) (fuel : ℕ) (s : Text)
    → space [] ≡ 0
    → length s ≤ fuel
    → space (strip space fuel s) ≡ 0
strip_stops space zero [] none h = none
strip_stops space zero (c ∷ s) none h = elim h [ ]
strip_stops space (suc fuel) s none h = elim (Bool-cases (space s == 0)) [
  | inl over ↦ rw over (ground arith)
  | inr more ↦ rw more (
      strip_stops space fuel (drop (space s) s) none (
        let left : length (drop (space s) s) ≡ length s - space s = length-drop (space s) s in
        let some_space : 0 < space s = ground arith in omega arith))
]

-- Of a text that does not begin with white space, no front part does.
front_space-prefix : (s t : Text) → front_space (s ++ t) ≡ 0 → front_space s ≡ 0
front_space-prefix [] t h = refl
front_space-prefix (a ∷ []) t h = ground arith
front_space-prefix (a ∷ b ∷ []) t h = ground arith
front_space-prefix (a ∷ b ∷ c ∷ s) t h = h

-- Only a front part is stripped.
strip-append :
    (space : Text → ℕ) (fuel : ℕ) (s : Text) → (front : Text) × (s ≡ front ++ strip space fuel s)
strip-append space zero s = ([], refl)
strip-append space (suc fuel) s = elim (Bool-cases (space s == 0)) [
  | inl over ↦ rw over ([], refl)
  | inr more ↦
      let (front, split) = strip-append space fuel (drop (space s) s) in
      rw more (
        take (space s) s ++ front,
        sym (take-append-drop (space s) s)
            ∙ ap (λ t. take (space s) s ++ t) split
            ∙ sym (append_assoc (take (space s) s) front _),
      )
]

-- A text neither begins nor ends with white space.
abbrev pub IsTrimmed : Text → Type 0
IsTrimmed s = (front_space s ≡ 0) × (back_space (reverse s) ≡ 0)

length-reverse_aux : (s t : Text) → length (reverse_aux s t) ≡ length s + length t
length-reverse_aux [] t = omega arith
length-reverse_aux (c ∷ s) t = length-reverse_aux s (c ∷ t) ∙ omega arith

length-reversed : (s : Text) → length (reverse s) ≤ length s
length-reversed s = omega (arith, length-reverse_aux s [])

-- `trim` leaves no white space on either side, and takes no other text away: what it leaves
-- stands between two parts of the text.
pub trim-IsTrimmed :
    (s : Text)
    → IsTrimmed (trim s) × ((front : Text) × (back : Text) × (s ≡ front ++ (trim s ++ back)))
unfolding trim
trim-IsTrimmed s =
    let inner = strip front_space (length s) s in
    let (front, front_split) = strip-append front_space (length s) s in
    let rest = strip back_space (length inner) (reverse inner) in
    let (back, back_split) = strip-append back_space (length inner) (reverse inner) in
    let split : inner ≡ reverse rest ++ reverse back =
      sym (reverse-reverse inner) ∙ ap reverse back_split ∙ reverse-append back rest in
    (
      (
        front_space-prefix (reverse rest) (reverse back)
            (ap front_space (sym split) ∙ strip_stops front_space (length s) s refl (omega arith)),
        ap back_space (reverse-reverse rest)
            ∙ strip_stops back_space (length inner) (reverse inner) refl (length-reversed inner),
      ),
      (front, reverse back, front_split ∙ ap (λ t. front ++ t) split),
    )

-- Spaces in front of a word are trimmed.
strip_spaces :
    (pad fuel : ℕ) (w : Text)
    → front_space w ≡ 0
    → pad ≤ fuel
    → strip front_space fuel (repeat 32 pad ++ w) ≡ w
strip_spaces zero zero w h k = refl
strip_spaces zero (suc fuel) w h k = rw h refl
strip_spaces (suc pad) zero w h k = elim k [ ]
strip_spaces (suc pad) (suc fuel) w h k = strip_spaces pad fuel w h (omega arith)

All-reverse_aux {κ} : (P : ℕ → Type κ) (s t : Text) → All P s → All P t → All P (reverse_aux s t)
All-reverse_aux P [] t h k = k
All-reverse_aux P (c ∷ s) t (p, h) k = All-reverse_aux P s (c ∷ t) h (p, k)

front_space-graphic : (s : Text) → All IsGraphic s → front_space s ≡ 0
front_space-graphic [] h = refl
front_space-graphic (c ∷ s) ((lo, hi), h) = ground arith

back_space-graphic : (s : Text) → All IsGraphic s → back_space s ≡ 0
back_space-graphic [] h = refl
back_space-graphic (c ∷ s) ((lo, hi), h) = ground arith

length-repeat : (pad : ℕ) (w : Text) → pad ≤ length (repeat 32 pad ++ w)
length-repeat zero w = omega arith
length-repeat (suc pad) w = omega (arith, length-repeat pad w)

strip_none : (fuel : ℕ) (s : Text) → back_space s ≡ 0 → strip back_space fuel s ≡ s
strip_none zero s h = refl
strip_none (suc fuel) s h = rw h refl

-- A word with spaces in front of it is trimmed to the word.
pub trim-repeat : (pad : ℕ) (w : Text) → All IsGraphic w → trim (repeat 32 pad ++ w) ≡ w
unfolding trim
trim-repeat pad w h =
    let padded = repeat 32 pad ++ w in
    let front : strip front_space (length padded) padded ≡ w =
      strip_spaces pad (length padded) w (front_space-graphic w h) (length-repeat pad w) in
    ap (λ f. reverse (strip back_space (length f) (reverse f))) front
    ∙ ap reverse (
        strip_none (length w) (reverse w)
          (back_space-graphic (reverse w) (All-reverse_aux IsGraphic w [] h tt)))
    ∙ reverse-reverse w
