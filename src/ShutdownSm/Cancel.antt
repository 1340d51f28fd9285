-- ===== src/ShutdownSm/Cancel.antt =====
-- When a pending shutdown is cancelled, and when it is kept (src/shutdown_sm.rs).
use web3_pi_ups_service.Prelude.{ℕ, ◌+◌, ◌≤◌, ◌<◌, ◌≡◌, ◌⊎◌, ap, ◌∙◌, false, none, some, [], arith}
use web3_pi_ups_service.Config.{BatteryConfig, ShutdownConfig}
use web3_pi_ups_service.Proto.Payloads.PowerStatusV1.{PowerStatusV1}
use web3_pi_ups_service.Soc.{pack_mv_to_soc_pct}
use web3_pi_ups_service.Soc.Curve.{pack_mv_to_soc_pct_mono}
use web3_pi_ups_service.State.{State, snapshot, set_shutdown_pending}
use web3_pi_ups_service.World.{Env}
use web3_pi_ups_service.ShutdownSm.{is_on_battery, step_power, step}
use web3_pi_ups_service.ShutdownSm.Decisions.{pending}

-- The supply voltage is in the configured range, ends included.
abbrev pub IsSupplied : BatteryConfig → PowerStatusV1 → Type 0
IsSupplied battery p =
    (battery.input_min_valid_mv ≤ p.vbus_in_mv) × (p.vbus_in_mv ≤ battery.input_max_valid_mv)

abbrev pub IsUnsupplied : BatteryConfig → PowerStatusV1 → Type 0
IsUnsupplied battery p =
    (p.vbus_in_mv < battery.input_min_valid_mv) ⊎ (battery.input_max_valid_mv < p.vbus_in_mv)

step_power-supplied :
    (env : Env) (battery : BatteryConfig) (shutdown : ShutdownConfig) (s : State) (start : ℕ)
    (p : PowerStatusV1)
    → IsSupplied battery p
    → pending (step_power env battery shutdown s (some start) (some p)).state ≡ none
unfolding step_power is_on_battery set_shutdown_pending
step_power-supplied env battery shutdown s start p h = ground arith

-- A valid supply voltage cancels a pending shutdown at once, whatever the charge is.
pub step-supplied :
    (env : Env) (battery : BatteryConfig) (shutdown : ShutdownConfig) (s : State) (start : ℕ)
    (p : PowerStatusV1)
    → pending s ≡ some start
    → s.inner.last_power ≡ some p
    → IsSupplied battery p
    → pending (step env battery shutdown s).state ≡ none
unfolding step snapshot
step-supplied env battery shutdown s start p e l h =
    ap (λ o. pending (step_power env battery shutdown s o s.inner.last_power).state) e
    ∙ ap (λ o. pending (step_power env battery shutdown s (some start) o).state) l
    ∙ step_power-supplied env battery shutdown s start p h

step_power-margin :
    (env : Env) (battery : BatteryConfig) (shutdown : ShutdownConfig) (s : State) (start : ℕ)
    (p : PowerStatusV1)
    → IsUnsupplied battery p
    → battery.shutdown_threshold_pct ≤ pack_mv_to_soc_pct p.vbat_mv
    → pack_mv_to_soc_pct p.vbat_mv
      < battery.shutdown_threshold_pct + battery.shutdown_cancel_margin_pct
    → pack_mv_to_soc_pct p.vbat_mv < 255
    → step_power env battery shutdown s (some start) (some p)
      ≡ record { state = s; effects = []; initiated = false }
unfolding step_power is_on_battery
step_power-margin env battery shutdown s start p h lo hi top = ground arith

-- Without supply, a charge that has come back over the threshold but not over the margin neither
-- cancels the countdown nor ends it: the step changes nothing.
pub step-margin :
    (env : Env) (battery : BatteryConfig) (shutdown : ShutdownConfig) (s : State) (start : ℕ)
    (p : PowerStatusV1)
    → pending s ≡ some start
    → s.inner.last_power ≡ some p
    → IsUnsupplied battery p
    → battery.shutdown_threshold_pct ≤ pack_mv_to_soc_pct p.vbat_mv
    → pack_mv_to_soc_pct p.vbat_mv
      < battery.shutdown_threshold_pct + battery.shutdown_cancel_margin_pct
    → step env battery shutdown s ≡ record { state = s; effects = []; initiated = false }
unfolding step snapshot
step-margin env battery shutdown s start p e l h lo hi =
    ap (λ o. step_power env battery shutdown s o s.inner.last_power) e
    ∙ ap (step_power env battery shutdown s (some start)) l
    ∙ step_power-margin env battery shutdown s start p h lo hi
        (omega (arith, (pack_mv_to_soc_pct_mono p.vbat_mv p.vbat_mv (omega arith)).1))
