-- ===== src/Examples/Battery.antt =====
-- The theorems on the state of charge and the shutdown state machine at work.
use web3_pi_ups_service.Prelude.{◌≤◌, ◌≡◌, ◌↔◌, refl, true, some, none, arith}
use web3_pi_ups_service.Examples.{battery, shutdown, at_second, power_at, low_power, state_with}
use web3_pi_ups_service.Soc.{scan_windows, cell_soc, pack_mv_to_soc_pct}
use web3_pi_ups_service.Soc.Curve.{pack_mv_to_soc_pct_mono, cell_soc-segment}
use web3_pi_ups_service.World.{elapsed_secs}
use web3_pi_ups_service.ShutdownSm.{is_on_battery, step}
use web3_pi_ups_service.ShutdownSm.Decisions.{pending, IsLow, step-initiated_iff}
use web3_pi_ups_service.ShutdownSm.Cancel.{step-supplied}

pack_mv_to_soc_pct_mono_example :
    (pack_mv_to_soc_pct 6500 ≤ pack_mv_to_soc_pct 7301) × (pack_mv_to_soc_pct 7301 ≤ 100)
pack_mv_to_soc_pct_mono_example = pack_mv_to_soc_pct_mono 6500 7301 (omega arith)

low_power-IsLow : IsLow battery (some low_power)
unfolding pack_mv_to_soc_pct cell_soc scan_windows is_on_battery
low_power-IsLow = (refl, refl)

step-initiated_iff_example :
    ((step (at_second 40) battery shutdown (state_with low_power (some 0))).initiated ≡ true)
    ↔ (IsLow battery (some low_power) × (shutdown.delay_seconds ≤ elapsed_secs (at_second 40) 0))
step-initiated_iff_example =
    step-initiated_iff (at_second 40) battery shutdown (state_with low_power (some 0)) 0 refl

step-supplied_example :
    pending (step (at_second 20) battery shutdown (state_with (power_at 15000 6500) (some 0))).state
    ≡ none
step-supplied_example =
    step-supplied (at_second 20) battery shutdown (state_with (power_at 15000 6500) (some 0)) 0
      (power_at 15000 6500) refl refl (omega arith, omega arith)

cell_soc-segment_example : cell_soc 3755 ≡ 68
cell_soc-segment_example = cell_soc-segment 2 3755 (omega arith) (omega arith) (omega arith)
