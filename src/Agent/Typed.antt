-- ===== src/Agent/Typed.antt =====
-- The agent's values stay within the types of the source, and what it sends can be sent
-- (src/main.rs, src/dispatcher.rs, src/shutdown_sm.rs, src/host_metrics/mod.rs).
use web3_pi_ups_service.Prelude.{Bool, true, false, List, [], ◌∷◌, All, All-append}
use web3_pi_ups_service.Agent.{
  Agent, Turn, received, dispatched, checked, measured, commands_of, Ran, dispatch_next, check,
  take_turn, run,
}
use web3_pi_ups_service.Config.{Config}
use web3_pi_ups_service.Dispatcher.Typed.{handle-IsTyped}
use web3_pi_ups_service.HostMetrics.Tick.Typed.{IsTypedReadings, tick-IsTyped}
use web3_pi_ups_service.Proto.Deframer.Typed.{feed_slice-IsTypedFrame}
use web3_pi_ups_service.Proto.Frame.{Frame, IsByte}
use web3_pi_ups_service.Proto.Frame.Typed.{IsTypedFrame}
use web3_pi_ups_service.ShutdownSm.Typed.{step-IsTyped}
use web3_pi_ups_service.State.Typed.{IsTypedState}
use web3_pi_ups_service.World.{Env}
use web3_pi_ups_service.World.Typed.{IsSendable}

-- The deframer's buffer and the frames in the channel are made of bytes, and the numbers of the
-- state are in the ranges of their types.
pub record IsTypedAgent (a : Agent) : Type 0 where
  pub buf : All IsByte a.deframer.buf
  pub inbound : All IsTypedFrame a.inbound
  pub state : IsTypedState a.state

-- What a turn takes from outside fits its type.
abbrev pub IsTypedTurn : Turn → Type 0
IsTypedTurn (received bytes) = All IsByte bytes
IsTypedTurn (measured env readings) = IsTypedReadings readings
IsTypedTurn _ = Unit

pub record IsTypedRan (r : Ran) : Type 0 where
  pub agent : IsTypedAgent r.agent
  pub shutdown_effects : All IsSendable r.shutdown_effects
  pub effects : All IsSendable r.effects

module _ (cfg : Config) where
  dispatch_next-IsTyped :
      (env : Env) (inbound : List Frame) (a : Agent)
      → All IsTypedFrame inbound
      → IsTypedAgent a
      → IsTypedRan (dispatch_next cfg env inbound a)
  unfolding dispatch_next
  dispatch_next-IsTyped env [] a f h = record { agent = h; shutdown_effects = tt; effects = tt }
  dispatch_next-IsTyped env (f ∷ inbound) a (k, later) h =
      let handled = handle-IsTyped a.state h.state env (commands_of cfg) f k in
      record {
        agent = record { buf = h.buf; inbound = later; state = handled.0 };
        shutdown_effects = tt;
        effects = handled.1;
      }

  check-IsTyped :
      (env : Env) (waits : Bool) (a : Agent) → IsTypedAgent a → IsTypedRan (check cfg env waits a)
  unfolding check
  check-IsTyped env true a h = record { agent = h; shutdown_effects = tt; effects = tt }
  check-IsTyped env false a h =
      let stepped = step-IsTyped env cfg.battery cfg.shutdown a.state h.state in
      record {
        agent = record { buf = h.buf; inbound = h.inbound; state = stepped.0 };
        shutdown_effects = stepped.1;
        effects = tt;
      }

  take_turn-IsTyped :
      (turn : Turn) (a : Agent)
      → IsTypedTurn turn
      → IsTypedAgent a
      → IsTypedRan (take_turn cfg turn a)
  unfolding take_turn
  take_turn-IsTyped (received bytes) a k h =
      let (left, found) = feed_slice-IsTypedFrame a.deframer bytes h.buf k in
      record {
        agent = record {
          buf = left;
          inbound = All-append IsTypedFrame a.inbound _ h.inbound found;
          state = h.state;
        };
        shutdown_effects = tt;
        effects = tt;
      }
  take_turn-IsTyped (dispatched env) a k h = dispatch_next-IsTyped env a.inbound a h.inbound h
  take_turn-IsTyped (checked env) a k h = check-IsTyped env a.waits a h
  take_turn-IsTyped (measured env r) a k h =
      let ticked =
        tick-IsTyped cfg.host_metrics.interval_seconds cfg.eth_clients r a.prev k env a.state
          h.state in
      record {
        agent = record { buf = h.buf; inbound = h.inbound; state = ticked.0 };
        shutdown_effects = tt;
        effects = ticked.1;
      }

  -- Where the received bytes are bytes and the readings fit their types, in whatever order the
  -- tasks take their turns: every number that the agent stores stays in the range of its type, the
  -- decoded payloads with their signed fields, the peers, the host's metrics and the sequence
  -- counters included; the frames in the channel are made of bytes; and each frame that a task
  -- sends is made of bytes and has a payload that the wire format can carry.
  pub run-IsTyped :
      (turns : List Turn) (a : Agent)
      → All IsTypedTurn turns
      → IsTypedAgent a
      → IsTypedRan (run cfg turns a)
  unfolding run
  run-IsTyped [] a k h = record { agent = h; shutdown_effects = tt; effects = tt }
  run-IsTyped (turn ∷ turns) a (k, ks) h =
      let first = take_turn-IsTyped turn a k h in
      let rest = run-IsTyped turns (take_turn cfg turn a).agent ks first.agent in
      record {
        agent = rest.agent;
        shutdown_effects = All-append IsSendable _ _ first.shutdown_effects rest.shutdown_effects;
        effects = All-append IsSendable _ _ first.effects rest.effects;
      }
