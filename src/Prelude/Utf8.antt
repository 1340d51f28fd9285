-- ===== src/Prelude/Utf8.antt =====
-- Rust's `std::str::from_utf8` as a test: the well-formed byte sequences of RFC 3629.
use Prim.Native.Nat.{ℕ, ◌-◌}
use mathlib.Core.Bool.{Bool, true, false, ◌&&◌}
use mathlib.Core.Path.{◌≡◌, refl}
use mathlib.Core.List.{List, [], ◌∷◌}
use web3_pi_ups_service.Prelude.Tests.{leb, ltb, ◌==◌, if◌then◌else◌}

-- How many bytes must still follow, and the range of the next of them.
record Expected : Type 0 where
  more : ℕ
  lo : ℕ
  hi : ℕ

abbrev bad_lead : Expected
bad_lead = record { more = 4; lo = 1; hi = 0 }

-- What a first byte announces. No byte lies in the range after a byte that cannot be first.
abbrev after_lead : ℕ → Expected
after_lead b =
    if ltb b 0x80
    then record { more = 0; lo = 0x80; hi = 0xbf }
    else if ltb b 0xc2
    then bad_lead
    else if ltb b 0xe0
    then record { more = 1; lo = 0x80; hi = 0xbf }
    else if ltb b 0xf0
    then record {
      more = 2;
      lo = if b == 0xe0 then 0xa0 else 0x80;
      hi = if b == 0xed then 0x9f else 0xbf;
    }
    else if ltb b 0xf5
    then record {
      more = 3;
      lo = if b == 0xf0 then 0x90 else 0x80;
      hi = if b == 0xf4 then 0x8f else 0xbf;
    }
    else bad_lead

continues : Expected → List ℕ → Bool
continues e [] = e.more == 0
continues e (b ∷ bs) =
    let first = e.more == 0 in
    let inside = leb e.lo b && leb b e.hi in
    let next = if first then after_lead b else record { more = e.more - 1; lo = 0x80; hi = 0xbf } in
    let rest = continues next bs in if first then rest else inside && rest

unfoldable pub is_utf8 : List ℕ → Bool
unfolding continues
is_utf8 bs = continues (record { more = 0; lo = 0x80; hi = 0xbf }) bs

-- Some sequences on both sides of the border.
euro_accepted : is_utf8 (0x41 ∷ 0xe2 ∷ 0x82 ∷ 0xac ∷ []) ≡ true
unfolding is_utf8
euro_accepted = refl

surrogate_refused : is_utf8 (0xed ∷ 0xa0 ∷ 0x80 ∷ []) ≡ false
unfolding is_utf8
surrogate_refused = refl

overlong_refused : is_utf8 (0xc0 ∷ 0xaf ∷ []) ≡ false
unfolding is_utf8
overlong_refused = refl

cut_refused : is_utf8 (0xe2 ∷ 0x82 ∷ []) ≡ false
unfolding is_utf8
cut_refused = refl
