-- ===== src/UnitTests/Soc.antt =====
-- The tests of the state of charge (src/soc.rs, module tests).
use web3_pi_ups_service.Prelude.{◌≡◌, refl, ◌+◌, ◌*◌, ◌-◌, ◌≤◌, ℕ, zero, suc, All, arith}
use web3_pi_ups_service.Soc.{lut, scan_windows, cell_soc, pack_mv_to_soc_pct}

abbrev EndpointsClamp : Type 0
EndpointsClamp =
    (pack_mv_to_soc_pct 8400 ≡ 100)
    × (pack_mv_to_soc_pct 8000 ≡ 100)
    × (pack_mv_to_soc_pct 6400 ≡ 0)
    × (pack_mv_to_soc_pct 5000 ≡ 0)

endpoints_clamp : EndpointsClamp
unfolding pack_mv_to_soc_pct cell_soc scan_windows
endpoints_clamp = (refl, refl, refl, refl)

abbrev MatchesLutPointsExactly : Type 0
MatchesLutPointsExactly = All (λ (point : ℕ × ℕ). pack_mv_to_soc_pct (point.0 * 2) ≡ point.1) lut

matches_lut_points_exactly : MatchesLutPointsExactly
unfolding pack_mv_to_soc_pct cell_soc scan_windows
matches_lut_points_exactly = ground arith

abbrev Interp395VCellIs94Pct : Type 0
Interp395VCellIs94Pct = pack_mv_to_soc_pct (3950 * 2) ≡ 94

interp_3_95_v_cell_is_94pct : Interp395VCellIs94Pct
unfolding pack_mv_to_soc_pct cell_soc scan_windows
interp_3_95_v_cell_is_94pct = refl

-- At most 1 from 31, on either side.
abbrev KneeAt355VCellIs16Pct : Type 0
KneeAt355VCellIs16Pct = let pct = pack_mv_to_soc_pct (3550 * 2) in (pct - 31 ≤ 1) × (31 - pct ≤ 1)

knee_at_3_55_v_cell_is_16pct : KneeAt355VCellIs16Pct
unfolding pack_mv_to_soc_pct cell_soc scan_windows
knee_at_3_55_v_cell_is_16pct = (omega arith, omega arith)

-- The loop over `steps` voltages from `v` on, 50 mV apart, with the last charge.
abbrev NonDecreasing : ℕ → ℕ → ℕ → Type 0
NonDecreasing v last zero = Unit
NonDecreasing v last (suc steps) =
    (last ≤ pack_mv_to_soc_pct v) × NonDecreasing (v + 50) (pack_mv_to_soc_pct v) steps

abbrev MonotonicNonDecreasing : Type 0
MonotonicNonDecreasing = NonDecreasing 6400 0 33

monotonic_non_decreasing : MonotonicNonDecreasing
unfolding pack_mv_to_soc_pct cell_soc scan_windows
monotonic_non_decreasing = ground arith
