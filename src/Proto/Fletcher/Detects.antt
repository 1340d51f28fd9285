-- ===== src/Proto/Fletcher/Detects.antt =====
-- Errors that the checksum detects (src/proto/fletcher.rs).
use web3_pi_ups_service.Prelude.{ℕ, ◌%◌, ◌<◌, ◌≡◌, ◌≢◌, sym, ap, ◌∙◌, List, ◌∷◌, ◌++◌, arith}
use web3_pi_ups_service.Proto.Fletcher.{fletcher8}
use web3_pi_ups_service.Proto.Fletcher.Sums.{
  sum, weighted_sum, fletcher8-sums, sum-append, weighted_sum-append,
}

-- One byte changed, anywhere in the buffer, changes the checksum.
pub fletcher8-changed_byte :
    (front back : List ℕ) (x y : ℕ)
    → x < 256
    → y < 256
    → x ≢ y
    → fletcher8 (front ++ (x ∷ back)) ≢ fletcher8 (front ++ (y ∷ back))
fletcher8-changed_byte front back x y hx hy ne e =
    let sums : sum (front ++ (x ∷ back)) % 256 ≡ sum (front ++ (y ∷ back)) % 256 =
      ap (λ (p : ℕ × ℕ). p.0) (sym (fletcher8-sums _) ∙ e ∙ fletcher8-sums _) in
    omega (arith, ne, sums, sum-append front (x ∷ back), sum-append front (y ∷ back))

-- Two neighbouring bytes that differ, exchanged, change the checksum.
pub fletcher8-exchanged_bytes :
    (front back : List ℕ) (x y : ℕ)
    → x < 256
    → y < 256
    → x ≢ y
    → fletcher8 (front ++ (x ∷ y ∷ back)) ≢ fletcher8 (front ++ (y ∷ x ∷ back))
fletcher8-exchanged_bytes front back x y hx hy ne e =
    let weights : weighted_sum (front ++ (x ∷ y ∷ back)) % 256
        ≡ weighted_sum (front ++ (y ∷ x ∷ back)) % 256 =
      ap (λ (p : ℕ × ℕ). p.1) (sym (fletcher8-sums _) ∙ e ∙ fletcher8-sums _) in
    omega (
      arith,
      weights,
      weighted_sum-append front (x ∷ y ∷ back),
      weighted_sum-append front (y ∷ x ∷ back),
    )
