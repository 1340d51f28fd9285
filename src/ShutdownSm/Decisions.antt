-- ===== src/ShutdownSm/Decisions.antt =====
-- When a step starts, ends and cancels a countdown (src/shutdown_sm.rs).
use web3_pi_ups_service.Prelude.{
  ℕ, ◌≤◌, ◌≡◌, ◌↔◌, ◌⊎◌, inl, inr, refl, ap, ◌∙◌, leb, Bool, true, false, Option, none, some, List,
  [], ◌∷◌, All, Bool-cases, arith,
}
use web3_pi_ups_service.Config.{BatteryConfig, ShutdownConfig}
use web3_pi_ups_service.Proto.Payloads.PowerStatusV1.{PowerStatusV1}
use web3_pi_ups_service.State.{State, snapshot, set_shutdown_pending}
use web3_pi_ups_service.World.{Env, Effect, ran, sent, elapsed_secs}
use web3_pi_ups_service.ShutdownSm.{
  Outcome, is_critical, on_battery, is_cancelled, announce_shutdown_imminent, trigger_shutdown,
  halt_command, script_command, decide, step_power, step,
}

abbrev pub pending : State → Option ℕ
pending s = s.inner.shutdown_pending_since

-- The last status is critically low, with no valid supply.
abbrev pub IsLow : BatteryConfig → Option PowerStatusV1 → Type 0
IsLow battery none = ⊥
IsLow battery (some p) = (is_critical battery p ≡ true) × (on_battery battery p ≡ true)

step_power-initiated :
    (env : Env) (battery : BatteryConfig) (shutdown : ShutdownConfig) (s : State) (since : Option ℕ)
    (power : Option PowerStatusV1)
    → (step_power env battery shutdown s since power).initiated ≡ true
    → (start : ℕ) × (since ≡ some start)
      × IsLow battery power
      × (shutdown.delay_seconds ≤ elapsed_secs env start)
unfolding step_power
step_power-initiated env battery shutdown s since none h = ground arith
step_power-initiated env battery shutdown s none (some p) h = ground arith
step_power-initiated env battery shutdown s (some start) (some p) h =
    (start, ground arith, ground arith, ground arith)

-- Shutdown is initiated only on a critically low battery without supply, and only when a
-- countdown has been pending for the configured delay.
pub step-initiated :
    (env : Env) (battery : BatteryConfig) (shutdown : ShutdownConfig) (s : State)
    → (step env battery shutdown s).initiated ≡ true
    → (start : ℕ) × (pending s ≡ some start)
      × IsLow battery s.inner.last_power
      × (shutdown.delay_seconds ≤ elapsed_secs env start)
unfolding step
step-initiated env battery shutdown s h =
    step_power-initiated env battery shutdown s (pending s) s.inner.last_power h

step_power-initiates :
    (env : Env) (battery : BatteryConfig) (shutdown : ShutdownConfig) (s : State) (start : ℕ)
    (power : Option PowerStatusV1)
    → IsLow battery power
    → shutdown.delay_seconds ≤ elapsed_secs env start
    → (step_power env battery shutdown s (some start) power).initiated ≡ true
unfolding step_power
step_power-initiates env battery shutdown s start none low h = elim low [ ]
step_power-initiates env battery shutdown s start (some p) low h = ground arith

-- With a countdown pending since `start`, a step initiates shutdown exactly when the battery is
-- critically low without supply and the delay has passed since `start`.
pub step-initiated_iff :
    (env : Env) (battery : BatteryConfig) (shutdown : ShutdownConfig) (s : State) (start : ℕ)
    → pending s ≡ some start
    → ((step env battery shutdown s).initiated ≡ true)
      ↔ (IsLow battery s.inner.last_power × (shutdown.delay_seconds ≤ elapsed_secs env start))
unfolding step snapshot
step-initiated_iff env battery shutdown s start e = (
  λ h. ground (arith, step-initiated env battery shutdown s h),
  λ h.
      ap (λ o. (step_power env battery shutdown s o s.inner.last_power).initiated) e
      ∙ step_power-initiates env battery shutdown s start s.inner.last_power h.0 h.1,
)

-- A step writes the pending time and nothing else.
pub step-frame :
    (env : Env) (battery : BatteryConfig) (shutdown : ShutdownConfig) (s : State)
    → let s' = (step env battery shutdown s).state in s' ≡ set_shutdown_pending (pending s') s
unfolding step snapshot set_shutdown_pending
step-frame env battery shutdown s = go s.inner.shutdown_pending_since s.inner.last_power refl
  where
    go :
        (since : Option ℕ) (power : Option PowerStatusV1)
        → since ≡ pending s
        → let s' = (step_power env battery shutdown s since power).state in
          s' ≡ set_shutdown_pending (pending s') s
    go since none e = ground arith
    go none (some p) e = ground arith
    go (some start) (some p) e = ground arith

-- The script was started; or it could not be, and a halt was attempted; or there is no script,
-- and a halt was attempted.
abbrev pub IsShutdown : Env → ShutdownConfig → List Effect → Type 0
IsShutdown env shutdown effects =
    let script = script_command shutdown.script_path in
    let there = env.exists shutdown.script_path in
    ((there ≡ true) × (env.spawn_ok script ≡ true) × (effects ≡ ran script ∷ []))
    ⊎ (((there ≡ true)
          × (env.spawn_ok script ≡ false)
          × (effects ≡ ran script ∷ ran halt_command ∷ []))
        ⊎ ((there ≡ false) × (effects ≡ ran halt_command ∷ [])))

abbrev pub IsSend : Effect → Type 0
IsSend (sent f) = Unit
IsSend (ran c) = ⊥

trigger_shutdown-IsShutdown :
    (env : Env) (shutdown : ShutdownConfig)
    → IsShutdown env shutdown (trigger_shutdown env shutdown)
unfolding trigger_shutdown
trigger_shutdown-IsShutdown env shutdown = ground arith

announce-IsSend : (env : Env) → All IsSend (announce_shutdown_imminent env)
unfolding announce_shutdown_imminent
announce-IsSend env = elim (Bool-cases env.channel_open) [
  | inl open_channel ↦ rw open_channel (tt, (tt, tt))
  | inr closed_channel ↦ rw closed_channel tt
]

-- What a step may do, by whether it initiated shutdown.
abbrev pub Permitted : Env → ShutdownConfig → Outcome → Type 0
Permitted env shutdown o =
    ((o.initiated ≡ true) × IsShutdown env shutdown o.effects)
    ⊎ ((o.initiated ≡ false) × All IsSend o.effects)

decide-Permitted :
    (env : Env) (battery : BatteryConfig) (shutdown : ShutdownConfig) (s : State)
    (p : PowerStatusV1) (since : Option ℕ) (low : Bool)
    → Permitted env shutdown (decide env battery shutdown s p since low)
unfolding decide
decide-Permitted env battery shutdown s p none true = inr (refl, announce-IsSend env)
decide-Permitted env battery shutdown s p none false = inr (refl, tt)
decide-Permitted env battery shutdown s p (some start) true =
    elim (Bool-cases (leb shutdown.delay_seconds (elapsed_secs env start))) [
      | inl over ↦ rw over (inl (refl, trigger_shutdown-IsShutdown env shutdown))
      | inr early ↦ rw early (inr (refl, tt))
    ]
decide-Permitted env battery shutdown s p (some start) false =
    elim (Bool-cases (is_cancelled battery p)) [
      | inl cancelled ↦ rw cancelled (inr (refl, tt))
      | inr kept ↦ rw kept (inr (refl, tt))
    ]

-- A step that initiates shutdown runs the script, or attempts a halt where the script is missing
-- or cannot be started; any other step runs no command.
pub step-Permitted :
    (env : Env) (battery : BatteryConfig) (shutdown : ShutdownConfig) (s : State)
    → Permitted env shutdown (step env battery shutdown s)
unfolding step snapshot
step-Permitted env battery shutdown s = go s.inner.last_power
  where
    go :
        (power : Option PowerStatusV1)
        → Permitted env shutdown (step_power env battery shutdown s (pending s) power)
    go none = unfold step_power in inr (refl, tt)
    go (some p) = unfold step_power in decide-Permitted env battery shutdown s p (pending s) _
