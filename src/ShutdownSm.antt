-- ===== src/ShutdownSm.antt =====
-- The low-battery shutdown state machine (src/shutdown_sm.rs). A step is atomic: the only field
-- that it writes, `shutdown_pending_since`, is written by no other task. Its clock is read once.
pub mod Decisions
pub mod Countdown
pub mod Cancel
pub mod Liveness
pub mod Loop
pub mod Typed
use web3_pi_ups_service.Prelude.{
  ℕ, ◌+◌, min, ltb, leb, Bool, true, false, not, ◌&&◌, ◌||◌, if◌then◌else◌, Option, none, some,
  List, [], ◌∷◌, ◌++◌, Text, ascii,
}
use web3_pi_ups_service.Config.{BatteryConfig, ShutdownConfig}
use web3_pi_ups_service.Proto.Addr
use web3_pi_ups_service.Proto.Class
use web3_pi_ups_service.Proto.Flag
use web3_pi_ups_service.Proto.Op
use web3_pi_ups_service.Proto.Frame.{Frame}
use web3_pi_ups_service.Proto.Payloads.HostEvent
use web3_pi_ups_service.Proto.Payloads.HostEventV1
use web3_pi_ups_service.Proto.Payloads.HostShutdownReason
use web3_pi_ups_service.Proto.Payloads.HostShutdownV1
use web3_pi_ups_service.Proto.Payloads.PowerStatusV1.{PowerStatusV1}
use web3_pi_ups_service.Soc.{pack_mv_to_soc_pct}
use web3_pi_ups_service.State.{AgentState, State, snapshot, set_shutdown_pending}
use web3_pi_ups_service.World.{Command, Env, Effect, ran, send, elapsed_secs}

-- Whether the input voltage says that the pack is not being supplied.
unfoldable pub is_on_battery : ℕ → ℕ → ℕ → Bool
is_on_battery vbus_in_mv lo hi = ltb vbus_in_mv lo || ltb hi vbus_in_mv

-- `u8::saturating_add`
abbrev pub saturating_add8 : ℕ → ℕ → ℕ
saturating_add8 a b = min (a + b) 255

abbrev pub imminent_frame : Frame
imminent_frame = record {
  dst = Addr.broadcast;
  src = Addr.rpi;
  class = Class.host;
  op = Op.Host.event;
  flags = Flag.event;
  seq = 0;
  payload = HostEventV1.encode (record { event = HostEvent.shutdown_imminent });
}

abbrev pub hint_frame : Frame
hint_frame = record {
  dst = Addr.broadcast;
  src = Addr.rpi;
  class = Class.host;
  op = Op.Host.shutdown;
  flags = Flag.event;
  seq = 0;
  payload = HostShutdownV1.encode (record { reason = HostShutdownReason.low_battery; delay_s = 0 });
}

unfoldable pub announce_shutdown_imminent : Env → List Effect
announce_shutdown_imminent env = send env imminent_frame ++ send env hint_frame

-- A failed start of the fallback is only logged.
abbrev pub halt_command : Command
halt_command = record { program = ascii "shutdown"; args = ascii "-h" ∷ ascii "now" ∷ [] }

abbrev pub script_command : Text → Command
script_command path = record { program = ascii "sh"; args = path ∷ [] }

unfoldable pub fallback_shutdown : List Effect
fallback_shutdown = ran halt_command ∷ []

unfoldable pub trigger_shutdown : Env → ShutdownConfig → List Effect
unfolding fallback_shutdown
trigger_shutdown env shutdown =
    let script = script_command shutdown.script_path in
    if env.exists shutdown.script_path
    then ran script ∷ (if env.spawn_ok script then [] else fallback_shutdown)
    else fallback_shutdown

-- The state after a step, its effects in order, and whether shutdown was initiated.
pub record Outcome : Type 0 where
  pub state : State
  pub effects : List Effect
  pub initiated : Bool

abbrev pub quiet : State → Outcome
quiet s = record { state = s; effects = []; initiated = false }

abbrev pub is_critical : BatteryConfig → PowerStatusV1 → Bool
is_critical battery power = ltb (pack_mv_to_soc_pct power.vbat_mv) battery.shutdown_threshold_pct

abbrev pub on_battery : BatteryConfig → PowerStatusV1 → Bool
on_battery battery power =
    is_on_battery power.vbus_in_mv battery.input_min_valid_mv battery.input_max_valid_mv

-- `recovered || restored`
abbrev pub is_cancelled : BatteryConfig → PowerStatusV1 → Bool
is_cancelled battery power =
    leb (saturating_add8 battery.shutdown_threshold_pct battery.shutdown_cancel_margin_pct)
      (pack_mv_to_soc_pct power.vbat_mv)
    || not (on_battery battery power)

-- The `match` of `step` on the pending time and on `critical && on_batt`.
unfoldable pub decide :
    Env → BatteryConfig → ShutdownConfig → State → PowerStatusV1 → Option ℕ → Bool → Outcome
unfolding announce_shutdown_imminent trigger_shutdown set_shutdown_pending
decide env battery shutdown s power none true = record {
  state = set_shutdown_pending (some env.now) s;
  effects = announce_shutdown_imminent env;
  initiated = false;
}
decide env battery shutdown s power (some start) true =
    if leb shutdown.delay_seconds (elapsed_secs env start)
    then record { state = s; effects = trigger_shutdown env shutdown; initiated = true }
    else quiet s
decide env battery shutdown s power (some start) false =
    if is_cancelled battery power then quiet (set_shutdown_pending none s) else quiet s
decide env battery shutdown s power none false = quiet s

-- `let Some(power) = snap.last_power else { return false }`, and the decision.
unfoldable pub step_power :
    Env → BatteryConfig → ShutdownConfig → State → Option ℕ → Option PowerStatusV1 → Outcome
unfolding decide
step_power env battery shutdown s pending none = quiet s
step_power env battery shutdown s pending (some power) =
    decide env battery shutdown s power pending
      (is_critical battery power && on_battery battery power)

unfoldable pub step : Env → BatteryConfig → ShutdownConfig → State → Outcome
unfolding step_power snapshot
step env battery shutdown s =
    let snap = snapshot s in
    step_power env battery shutdown s snap.shutdown_pending_since snap.last_power
