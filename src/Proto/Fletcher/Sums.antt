-- ===== src/Proto/Fletcher/Sums.antt =====
-- The checksum as two sums (src/proto/fletcher.rs).
use web3_pi_ups_service.Prelude.{
  ℕ, suc, ◌+◌, ◌*◌, ◌%◌, ◌<◌, ◌≡◌, ap, List, [], ◌∷◌, ◌++◌, length, length-append, arith,
}
use native.Mathlib.Nat.{div-add-mod}
use web3_pi_ups_service.Proto.Fletcher.{fletcher8_loop, fletcher8}

abbrev pub sum : List ℕ → ℕ
sum [] = 0
sum (x ∷ xs) = x + sum xs

-- Each byte counts as often as there are bytes from it to the end.
abbrev pub weighted_sum : List ℕ → ℕ
weighted_sum [] = 0
weighted_sum (x ∷ xs) = suc (length xs) * x + weighted_sum xs

-- `m` rounds add a remainder modulo 256 as well as the number itself.
mod_times : (m n k : ℕ) → (k + m * (n % 256)) % 256 ≡ (k + m * n) % 256
mod_times m n k = omega (arith, ap (λ (t : ℕ). m * t) (div-add-mod n 256))

fletcher8_loop-sums :
    (a b : ℕ) (buf : List ℕ)
    → a < 256
    → b < 256
    → ((fletcher8_loop a b buf).0 ≡ (a + sum buf) % 256)
      × ((fletcher8_loop a b buf).1 ≡ (b + length buf * a + weighted_sum buf) % 256)
unfolding fletcher8_loop
fletcher8_loop-sums a b [] ha hb = omega arith
fletcher8_loop-sums a b (x ∷ xs) ha hb =
    let a' = (a + x) % 256 in
    let (first, second) = fletcher8_loop-sums a' ((b + a') % 256) xs (omega arith) (omega arith) in
    (
      omega (arith, first),
      omega (arith, second, mod_times (length xs) (a + x) (b + a' + weighted_sum xs)),
    )

-- `fletcher8` is the sum of the bytes and their weighted sum, each modulo 256.
pub fletcher8-sums : (buf : List ℕ) → fletcher8 buf ≡ (sum buf % 256, weighted_sum buf % 256)
unfolding fletcher8
fletcher8-sums buf =
    let (first, second) = fletcher8_loop-sums 0 0 buf (omega arith) (omega arith) in
    ground (arith, first, second)

pub sum-append : (xs ys : List ℕ) → sum (xs ++ ys) ≡ sum xs + sum ys
sum-append [] ys = omega arith
sum-append (x ∷ xs) ys = omega (arith, sum-append xs ys)

pub weighted_sum-append :
    (xs ys : List ℕ)
    → weighted_sum (xs ++ ys) ≡ weighted_sum xs + length ys * sum xs + weighted_sum ys
weighted_sum-append [] ys = omega arith
weighted_sum-append (x ∷ xs) ys =
    omega (arith, weighted_sum-append xs ys, ap (λ (t : ℕ). t * x) (length-append xs ys))
