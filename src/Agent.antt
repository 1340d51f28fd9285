-- ===== src/Agent.antt =====
-- The tasks of the agent at work together, as `run_daemon` of src/main.rs starts them: the reader,
-- the dispatcher, the shutdown task and the metrics task take turns on one state, in any order.
pub mod Writes
pub mod Refines
pub mod Confined
pub mod Typed
pub mod Delivered
pub mod Triggers
pub mod Alarm
pub mod Shutdown
pub mod Numbered
use web3_pi_ups_service.Prelude.{Bool, true, false, if◌then◌else◌, List, [], ◌∷◌, ◌++◌, ℕ}
use web3_pi_ups_service.Commands
use web3_pi_ups_service.Commands.{CommandsHandler}
use web3_pi_ups_service.Config.{Config}
use web3_pi_ups_service.Dispatcher.{Handled, handle}
use web3_pi_ups_service.HostMetrics.Tick.{Readings, Previous}
use web3_pi_ups_service.HostMetrics.Tick
use web3_pi_ups_service.Proto.Deframer.{Deframer, feed_slice}
use web3_pi_ups_service.Proto.Deframer.Sound.{frames}
use web3_pi_ups_service.Proto.Frame.{Frame}
use web3_pi_ups_service.ShutdownSm.{step}
use web3_pi_ups_service.State.{State}
use web3_pi_ups_service.World.{Env, Effect}

-- `inbound` is the channel between reader and dispatcher; `waits` says that the shutdown task has
-- initiated shutdown and waits for ever.
pub record Agent : Type 0 where
  pub deframer : Deframer
  pub inbound : List Frame
  pub state : State
  pub prev : Previous
  pub waits : Bool

-- A turn of a task: the reader with some bytes, the dispatcher with the next frame, if there is
-- one, a tick of the shutdown task, or of the metrics task with what it reads; with an interval of
-- 0 the metrics task takes no turns. The channel's bound of 64 frames only delays the reader.
pub data Turn : Type 0 where
  received : List ℕ → Turn
  dispatched : Env → Turn
  checked : Env → Turn
  measured : Env → Readings → Turn

-- The agent after some turns, the effects of the shutdown task, and those of the others.
pub record Ran : Type 0 where
  pub agent : Agent
  pub shutdown_effects : List Effect
  pub effects : List Effect

-- The handler of `run_daemon`.
abbrev pub commands_of : Config → CommandsHandler
commands_of cfg = Commands.new cfg.commands cfg.shutdown

abbrev pub idle : Agent → Ran
idle a = record { agent = a; shutdown_effects = []; effects = [] }

unfoldable pub dispatch_next : Config → Env → List Frame → Agent → Ran
dispatch_next cfg env [] a = idle a
dispatch_next cfg env (f ∷ inbound) a =
    let handled = handle env (commands_of cfg) f a.state in
    record {
      agent = record a { inbound = inbound; state = handled.0 };
      shutdown_effects = [];
      effects = handled.1;
    }

unfoldable pub check : Config → Env → Bool → Agent → Ran
check cfg env true a = idle a
check cfg env false a =
    let o = step env cfg.battery cfg.shutdown a.state in
    record {
      agent = record a { state = o.state; waits = o.initiated };
      shutdown_effects = o.effects;
      effects = [];
    }

unfoldable pub take_turn : Config → Turn → Agent → Ran
unfolding dispatch_next check
take_turn cfg (received bytes) a =
    let fed = feed_slice a.deframer bytes in
    idle (record a { deframer = fed.0; inbound = a.inbound ++ frames fed.1 })
take_turn cfg (dispatched env) a = dispatch_next cfg env a.inbound a
take_turn cfg (checked env) a = check cfg env a.waits a
take_turn cfg (measured env readings) a =
    let t =
      Tick.tick cfg.host_metrics.interval_seconds cfg.eth_clients env readings a.prev a.state in
    record {
      agent = record a { state = t.state; prev = t.prev };
      shutdown_effects = [];
      effects = t.effects;
    }

unfoldable pub run : Config → List Turn → Agent → Ran
unfolding take_turn
run cfg [] a = idle a
run cfg (turn ∷ turns) a =
    let first = take_turn cfg turn a in
    let rest = run cfg turns first.agent in
    record {
      agent = rest.agent;
      shutdown_effects = first.shutdown_effects ++ rest.shutdown_effects;
      effects = first.effects ++ rest.effects;
    }
