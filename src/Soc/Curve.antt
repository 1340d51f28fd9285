-- ===== src/Soc/Curve.antt =====
-- The shape of the charge curve (src/soc.rs).
use web3_pi_ups_service.Prelude.{
  ℕ, zero, suc, ◌+◌, ◌-◌, ◌*◌, ◌/◌, ◌≤◌, ◌<◌, ◌≡◌, ◌↔◌, refl, leb, leb→le, true, ◌&&◌, inl, inr,
  Bool-cases, inl, inr, Bool-cases, get_or, all_below, all_below_lem, arith,
}
use native.Mathlib.Nat.{le_refl}
use web3_pi_ups_service.Soc.{lut, cell_soc, pack_mv_to_soc_pct}

rises_table :
    all_below 4001 (λ c. leb (cell_soc c) (cell_soc (suc c)) && leb (cell_soc c) 100) ≡ true
unfolding cell_soc
rises_table = refl

cell_soc_full : (c : ℕ) → 4000 ≤ c → cell_soc c ≡ 100
unfolding cell_soc
cell_soc_full c h = let high : leb 4000 c ≡ true = ground arith in rw high

cell_soc_step : (c : ℕ) → (cell_soc c ≤ cell_soc (suc c)) × (cell_soc c ≤ 100)
cell_soc_step c = elim (Bool-cases (leb 4000 c)) [
  | inl high ↦
      let h = leb→le 4000 c high in
      omega (arith, cell_soc_full c h, cell_soc_full (suc c) (omega arith))
  | inr low ↦
      let h : c < 4001 = ground arith in
      ground (
        arith,
        all_below_lem 4001 (λ (n : ℕ). leb (cell_soc n) (cell_soc (suc n)) && leb (cell_soc n) 100)
            c rises_table h,
      )
]

cell_soc_mono : (k c : ℕ) → cell_soc c ≤ cell_soc (k + c)
cell_soc_mono zero c = let e : 0 + c ≡ c = omega arith in rw e (le_refl _)
cell_soc_mono (suc k) c =
    let e : suc k + c ≡ suc (k + c) = omega arith in
    rw e (omega (arith, cell_soc_mono k c, cell_soc_step (k + c)))

-- The charge does not fall as the pack voltage rises, and it is at most 100.
pub pack_mv_to_soc_pct_mono :
    (v w : ℕ) → v ≤ w → (pack_mv_to_soc_pct v ≤ pack_mv_to_soc_pct w) × (pack_mv_to_soc_pct w ≤ 100)
unfolding pack_mv_to_soc_pct
pack_mv_to_soc_pct_mono v w h =
    let e : w / 2 - v / 2 + v / 2 ≡ w / 2 = omega arith in
    (rw e at (cell_soc_mono (w / 2 - v / 2) (v / 2)), (cell_soc_step (w / 2)).1)

-- Between two neighbouring entries of the table the charge is the value on the line between
-- them, rounded down: the loop finds the window for every voltage inside the table, and the
-- clamp to 0..100 changes nothing.
pub cell_soc-segment :
    (i c : ℕ)
    → i < 8
    → (get_or lut (suc i) (0, 0)).0 < c
    → c ≤ (get_or lut i (0, 0)).0
    → let hi = get_or lut i (0, 0) in
      let lo = get_or lut (suc i) (0, 0) in
      cell_soc c ≡ lo.1 + (c - lo.0) * (hi.1 - lo.1) / (hi.0 - lo.0)
unfolding cell_soc
cell_soc-segment zero c h p q = ground arith
cell_soc-segment (suc zero) c h p q = ground arith
cell_soc-segment (suc (suc zero)) c h p q = ground arith
cell_soc-segment (suc (suc (suc zero))) c h p q = ground arith
cell_soc-segment (suc (suc (suc (suc zero)))) c h p q = ground arith
cell_soc-segment (suc (suc (suc (suc (suc zero))))) c h p q = ground arith
cell_soc-segment (suc (suc (suc (suc (suc (suc zero)))))) c h p q = ground arith
cell_soc-segment (suc (suc (suc (suc (suc (suc (suc zero))))))) c h p q = ground arith
cell_soc-segment (suc (suc (suc (suc (suc (suc (suc (suc i)))))))) c h p q = absurd (omega arith)

-- The charge is below 10 percent exactly when the pack is below 6.8 V.
pub pack_mv_to_soc_pct-low : (v : ℕ) → (pack_mv_to_soc_pct v < 10) ↔ (v < 6800)
unfolding pack_mv_to_soc_pct
pack_mv_to_soc_pct-low v = ground arith
