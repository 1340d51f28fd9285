-- ===== src/Soc.antt =====
-- Battery state of charge (src/soc.rs). The table falls in both columns, so that the
-- differences that the code takes in `i32` are not negative, and `-` on ℕ is exact.
pub mod Curve
use web3_pi_ups_service.Prelude.{
  ℕ, ◌+◌, ◌-◌, ◌*◌, ◌/◌, min, ltb, leb, ◌&&◌, if◌then◌else◌, List, [], ◌∷◌,
}

-- Cell voltage in mV, and percent.
abbrev pub lut : List (ℕ × ℕ)
lut =
    (4000, 100)
    ∷ (3900, 88)
    ∷ (3800, 75)
    ∷ (3700, 60)
    ∷ (3600, 40)
    ∷ (3500, 22)
    ∷ (3400, 10)
    ∷ (3300, 4)
    ∷ (3200, 0)
    ∷ []

-- The value on the line between two entries, clamped to 0..100.
abbrev pub interpolate : ℕ × ℕ → ℕ × ℕ → ℕ → ℕ
interpolate hi lo cell_mv = min (lo.1 + (cell_mv - lo.0) * (hi.1 - lo.1) / (hi.0 - lo.0)) 100

-- The loop over `LUT.windows(2)`; 0 when no window holds the voltage.
unfoldable pub scan_windows : ℕ → List (ℕ × ℕ) → ℕ
scan_windows cell_mv [] = 0
scan_windows cell_mv (hi ∷ []) = 0
scan_windows cell_mv (hi ∷ lo ∷ rest) =
    if leb cell_mv hi.0 && ltb lo.0 cell_mv
    then interpolate hi lo cell_mv
    else scan_windows cell_mv (lo ∷ rest)

-- The first and the last entry of `lut` are those that the source reads by index.
unfoldable pub cell_soc : ℕ → ℕ
unfolding scan_windows
cell_soc cell_mv =
    if leb 4000 cell_mv then 100 else if leb cell_mv 3200 then 0 else scan_windows cell_mv lut

unfoldable pub pack_mv_to_soc_pct : ℕ → ℕ
unfolding cell_soc
pack_mv_to_soc_pct vbat_mv = cell_soc (vbat_mv / 2)
