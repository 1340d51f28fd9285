-- ===== src/UnitTests/ShutdownSm.antt =====
-- The tests of the input voltage (src/shutdown_sm.rs, module tests).
use web3_pi_ups_service.Prelude.{◌≡◌, refl, true, false}
use web3_pi_ups_service.ShutdownSm.{is_on_battery}

abbrev OnBatteryBelowMin : Type 0
OnBatteryBelowMin = is_on_battery 4000 8000 26000 ≡ true

on_battery_below_min : OnBatteryBelowMin
unfolding is_on_battery
on_battery_below_min = refl

abbrev OnBatteryAboveMax : Type 0
OnBatteryAboveMax = is_on_battery 30000 8000 26000 ≡ true

on_battery_above_max : OnBatteryAboveMax
unfolding is_on_battery
on_battery_above_max = refl

abbrev OnGridInRange : Type 0
OnGridInRange = is_on_battery 12000 8000 26000 ≡ false

on_grid_in_range : OnGridInRange
unfolding is_on_battery
on_grid_in_range = refl
