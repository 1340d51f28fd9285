-- ===== src/Proto/Fletcher.antt =====
-- The Fletcher-8 checksum (src/proto/fletcher.rs). A `u8` is a number below 256.
pub mod Sums
pub mod Detects
use web3_pi_ups_service.Prelude.{
  ℕ, suc, ◌+◌, ◌*◌, ◌%◌, ◌<◌, ◌≡◌, refl, List, [], ◌∷◌, ◌++◌, length, arith,
}

-- The loop of `fletcher8` over its two accumulators.
unfoldable pub fletcher8_loop : ℕ → ℕ → List ℕ → ℕ × ℕ
fletcher8_loop a b [] = (a, b)
fletcher8_loop a b (byte ∷ buf) =
    let a' = (a + byte) % 256 in let b' = (b + a') % 256 in fletcher8_loop a' b' buf

unfoldable pub fletcher8 : List ℕ → ℕ × ℕ
unfolding fletcher8_loop
fletcher8 buf = fletcher8_loop 0 0 buf

pub fletcher8_loop_lt :
    (a b : ℕ) (buf : List ℕ)
    → a < 256
    → b < 256
    → ((fletcher8_loop a b buf).0 < 256) × ((fletcher8_loop a b buf).1 < 256)
unfolding fletcher8_loop
fletcher8_loop_lt a b [] ha hb = (ha, hb)
fletcher8_loop_lt a b (byte ∷ buf) ha hb =
    fletcher8_loop_lt ((a + byte) % 256) ((b + (a + byte) % 256) % 256) buf (omega arith)
      (omega arith)

-- Both halves of the checksum are bytes.
pub fletcher8_lt : (buf : List ℕ) → ((fletcher8 buf).0 < 256) × ((fletcher8 buf).1 < 256)
unfolding fletcher8
fletcher8_lt buf = fletcher8_loop_lt 0 0 buf (omega arith) (omega arith)
