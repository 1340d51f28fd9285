-- ===== src/ShutdownSm/Typed.antt =====
-- The shutdown task keeps the state within its types and sends only what can be sent
-- (src/shutdown_sm.rs).
use web3_pi_ups_service.Prelude.{
  Bool, true, false, Bool-cases, inl, inr, leb, ◌&&◌, Option, none, some, ℕ, All, All-append, arith,
}
use web3_pi_ups_service.Commands.Allowed.{send-All}
use web3_pi_ups_service.Config.{BatteryConfig, ShutdownConfig}
use web3_pi_ups_service.Proto.Payloads.HostEventV1
use web3_pi_ups_service.Proto.Payloads.HostShutdownV1
use web3_pi_ups_service.Proto.Payloads.PowerStatusV1.{PowerStatusV1}
use web3_pi_ups_service.ShutdownSm.{
  imminent_frame, hint_frame, announce_shutdown_imminent, fallback_shutdown, script_command,
  trigger_shutdown, Outcome, is_cancelled, is_critical, on_battery, decide, step_power, step,
}
use web3_pi_ups_service.State.{State, snapshot}
use web3_pi_ups_service.State.Typed.{IsTypedState, set_shutdown_pending-IsTypedState}
use web3_pi_ups_service.World.{Env, elapsed_secs, sent}
use web3_pi_ups_service.World.Typed.{IsSendable}

imminent_frame-IsSendable : IsSendable (sent imminent_frame)
unfolding HostEventV1.encode
imminent_frame-IsSendable = ground arith

hint_frame-IsSendable : IsSendable (sent hint_frame)
unfolding HostShutdownV1.encode
hint_frame-IsSendable = ground arith

announce-IsSendable : (env : Env) → All IsSendable (announce_shutdown_imminent env)
unfolding announce_shutdown_imminent
announce-IsSendable env =
    All-append IsSendable _ _ (send-All IsSendable env imminent_frame imminent_frame-IsSendable)
      (send-All IsSendable env hint_frame hint_frame-IsSendable)

trigger_shutdown-IsSendable :
    (env : Env) (shutdown : ShutdownConfig) → All IsSendable (trigger_shutdown env shutdown)
unfolding trigger_shutdown fallback_shutdown
trigger_shutdown-IsSendable env shutdown = elim (Bool-cases (env.exists shutdown.script_path)) [
  | inr missing ↦ simp missing (tt, tt)
  | inl there ↦ elim (Bool-cases (env.spawn_ok (script_command shutdown.script_path))) [
    | inl started ↦ simp (there, started) (tt, tt)
    | inr failed ↦ simp (there, failed) (tt, (tt, tt))
  ]
]

module _ (env : Env) (battery : BatteryConfig) (shutdown : ShutdownConfig) (s : State) where
  abbrev IsTypedOutcome : Outcome → Type 0
  IsTypedOutcome o = IsTypedState o.state × All IsSendable o.effects

  module _ (h : IsTypedState s) where
    decide-IsTyped :
        (power : PowerStatusV1) (pending : Option ℕ) (low : Bool)
        → IsTypedOutcome (decide env battery shutdown s power pending low)
    unfolding decide
    decide-IsTyped power none true =
        (set_shutdown_pending-IsTypedState s h (some env.now), announce-IsSendable env)
    decide-IsTyped power (some start) true =
        elim (Bool-cases (leb shutdown.delay_seconds (elapsed_secs env start))) [
          | inl due ↦ rw due (h, trigger_shutdown-IsSendable env shutdown)
          | inr early ↦ rw early (h, tt)
        ]
    decide-IsTyped power (some start) false = elim (Bool-cases (is_cancelled battery power)) [
      | inl cancelled ↦ rw cancelled (set_shutdown_pending-IsTypedState s h none, tt)
      | inr kept ↦ rw kept (h, tt)
    ]
    decide-IsTyped power none false = (h, tt)

    step_power-IsTyped :
        (pending : Option ℕ) (power : Option PowerStatusV1)
        → IsTypedOutcome (step_power env battery shutdown s pending power)
    unfolding step_power
    step_power-IsTyped pending none = (h, tt)
    step_power-IsTyped pending (some power) =
        decide-IsTyped power pending (is_critical battery power && on_battery battery power)

    pub step-IsTyped : IsTypedOutcome (step env battery shutdown s)
    unfolding step
    step-IsTyped = step_power-IsTyped (snapshot s).shutdown_pending_since (snapshot s).last_power
