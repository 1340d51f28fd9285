-- ===== src/Ipc/Alert.antt =====
-- What a snapshot says of a shutdown, and what the state machine does (src/ipc.rs,
-- src/shutdown_sm.rs).
use web3_pi_ups_service.Prelude.{
  ℕ, ◌-◌, ◌/◌, ◌≤◌, ◌<◌, ◌≡◌, ◌↔◌, refl, subst, sym, true, Option, none, some, arith,
}
use mathlib.Core.Option.{map}
use web3_pi_ups_service.Config.{BatteryConfig, ShutdownConfig}
use web3_pi_ups_service.Ipc.{PowerSnapshot, SnapshotMsg, OnBattCfg, make_power, build_snapshot}
use web3_pi_ups_service.Proto.Payloads.PowerStatusV1.{PowerStatusV1}
use web3_pi_ups_service.ShutdownSm.{step}
use web3_pi_ups_service.ShutdownSm.Decisions.{IsLow, step-initiated, step-initiated_iff}
use web3_pi_ups_service.State.{State, snapshot}
use web3_pi_ups_service.World.{Env}

-- The range of valid input voltages that `run_daemon` hands to the server.
abbrev pub cfg_of : BatteryConfig → OnBattCfg
cfg_of battery = record { min_mv = battery.input_min_valid_mv; max_mv = battery.input_max_valid_mv }

-- A snapshot shows a pack below the threshold and on battery.
abbrev pub ShowsLow : BatteryConfig → Option PowerSnapshot → Type 0
ShowsLow battery none = ⊥
ShowsLow battery (some p) = (p.soc_pct < battery.shutdown_threshold_pct) × (p.on_battery ≡ true)

abbrev pub ShowsElapsed : ShutdownConfig → Option ℕ → Type 0
ShowsElapsed shutdown none = ⊥
ShowsElapsed shutdown (some secs) = shutdown.delay_seconds ≤ secs

-- A snapshot shows that shutdown is due.
abbrev pub ShowsDue : BatteryConfig → ShutdownConfig → SnapshotMsg → Type 0
ShowsDue battery shutdown msg =
    ShowsLow battery msg.power × ShowsElapsed shutdown msg.shutdown_pending_for_s

ShowsLow-IsLow :
    (battery : BatteryConfig) (at : Option ℕ) (now : ℕ) (power : Option PowerStatusV1)
    → ShowsLow battery (map (λ p. make_power p at now (cfg_of battery)) power) ↔ IsLow battery power
unfolding make_power
ShowsLow-IsLow battery at now none = ((λ h. h), (λ h. h))
ShowsLow-IsLow battery at now (some p) = ((λ h. (ground arith, h.1)), (λ h. (ground arith, h.1)))

ShowsElapsed-some :
    (shutdown : ShutdownConfig) (now : ℕ) (since : Option ℕ)
    → ShowsElapsed shutdown (map (λ t. (now - t) / 1_000_000_000) since)
    → (start : ℕ) × (since ≡ some start) × (shutdown.delay_seconds ≤ (now - start) / 1_000_000_000)
ShowsElapsed-some shutdown now none h = elim h [ ]
ShowsElapsed-some shutdown now (some start) h = (start, refl, h)

-- A step initiates shutdown exactly when the snapshot of the same state at the same time, with
-- the range of valid voltages of the configuration, shows a charge below the threshold, a pack on
-- battery and a shutdown that has been pending for the configured delay.
pub step-build_snapshot :
    (env : Env) (battery : BatteryConfig) (shutdown : ShutdownConfig) (s : State)
    (unix_ms : Option ℕ)
    → ((step env battery shutdown s).initiated ≡ true)
      ↔ ShowsDue battery shutdown (
          build_snapshot
            (record { now = env.now; unix_ms = unix_ms })
            (snapshot s)
            (cfg_of battery))
unfolding build_snapshot snapshot
step-build_snapshot env battery shutdown s unix_ms =
    let shown = ShowsLow-IsLow battery s.inner.last_power_at env.now s.inner.last_power in
    (
      λ h.
          let (start, e, low, over) = step-initiated env battery shutdown s h in
          (
            shown.1 low,
            subst (λ o. ShowsElapsed shutdown (map (λ t. (env.now - t) / 1_000_000_000) o)) (sym e)
                over,
          ),
      λ (low, over).
          let (start, e, late) =
            ShowsElapsed-some shutdown env.now s.inner.shutdown_pending_since over in
          (step-initiated_iff env battery shutdown s start e).1 (shown.0 low, late),
    )
