-- ===== src/Agent/Confined.antt =====
-- Which processes the agent starts (src/main.rs).
use web3_pi_ups_service.Prelude.{
  ◌≡◌, sym, ap, subst, ◌∙◌, Bool, true, false, List, [], ◌∷◌, All, All-append,
}
use web3_pi_ups_service.Agent.{
  Agent, Turn, received, dispatched, checked, measured, commands_of, dispatch_next, check,
  take_turn, run,
}
use web3_pi_ups_service.Agent.Refines.{run-shutdown_sm_loop}
use web3_pi_ups_service.Agent.Writes.{inputs}
use web3_pi_ups_service.Commands.Allowed.{IsAllowed, send-All}
use web3_pi_ups_service.Config.{Config}
use web3_pi_ups_service.Dispatcher.Isolation.{handle-IsIsolated}
use web3_pi_ups_service.HostMetrics.Tick
use web3_pi_ups_service.Proto.Frame.{Frame}
use web3_pi_ups_service.ShutdownSm.Loop.{
  shutdown_sm_loop, IsOneShutdown, shutdown_sm_loop-IsOneShutdown,
}
use web3_pi_ups_service.World.{Env}

module _ (cfg : Config) where
  dispatch_next-IsAllowed :
      (env : Env) (inbound : List Frame) (a : Agent)
      → All (IsAllowed (commands_of cfg)) (dispatch_next cfg env inbound a).effects
  unfolding dispatch_next
  dispatch_next-IsAllowed env [] a = tt
  dispatch_next-IsAllowed env (f ∷ inbound) a =
      (handle-IsIsolated env (commands_of cfg) f a.state).processes

  check-IsAllowed :
      (env : Env) (waits : Bool) (a : Agent)
      → All (IsAllowed (commands_of cfg)) (check cfg env waits a).effects
  unfolding check
  check-IsAllowed env true a = tt
  check-IsAllowed env false a = tt

  take_turn-IsAllowed :
      (turn : Turn) (a : Agent) → All (IsAllowed (commands_of cfg)) (take_turn cfg turn a).effects
  unfolding take_turn
  take_turn-IsAllowed (received bytes) a = tt
  take_turn-IsAllowed (dispatched env) a = dispatch_next-IsAllowed env a.inbound a
  take_turn-IsAllowed (checked env) a = check-IsAllowed env a.waits a
  take_turn-IsAllowed (measured env r) a =
      unfold Tick.tick in send-All (IsAllowed (commands_of cfg)) env _ tt

  run-IsAllowed :
      (turns : List Turn) (a : Agent) → All (IsAllowed (commands_of cfg)) (run cfg turns a).effects
  unfolding run
  run-IsAllowed [] a = tt
  run-IsAllowed (turn ∷ turns) a =
      let first = take_turn cfg turn a in
      All-append (IsAllowed (commands_of cfg)) first.effects (run cfg turns first.agent).effects
        (take_turn-IsAllowed turn a) (run-IsAllowed turns first.agent)

  -- Whatever bytes and readings come, in whatever order the tasks take their turns: the shutdown
  -- task attempts to shut down at most once, and does nothing after that; and no other process is
  -- started than what a remote command may start, the configured script, `shutdown`, and `systemctl`
  -- on a unit of the whitelist with the kill switch on. What the metrics task asks `systemctl` is
  -- among its readings.
  pub run-IsOneShutdown :
      (turns : List Turn) (a : Agent)
      → a.waits ≡ false
      → IsOneShutdown cfg.battery cfg.shutdown (run cfg turns a).shutdown_effects
        × All (IsAllowed (commands_of cfg)) (run cfg turns a).effects
  run-IsOneShutdown turns a starts = (
    subst (IsOneShutdown cfg.battery cfg.shutdown)
        (ap (λ w. (shutdown_sm_loop cfg.battery cfg.shutdown (inputs cfg turns a) w a.state).1)
            (sym starts)
          ∙ ap (λ r. r.1) (run-shutdown_sm_loop cfg turns a))
        (shutdown_sm_loop-IsOneShutdown cfg.battery cfg.shutdown (inputs cfg turns a) a.state),
    run-IsAllowed turns a,
  )
