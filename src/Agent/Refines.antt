-- ===== src/Agent/Refines.antt =====
-- The shutdown task among the real tasks is the one among the abstract writes of
-- ShutdownSm.Countdown (src/main.rs, src/shutdown_sm.rs, src/dispatcher.rs).
use web3_pi_ups_service.Prelude.{
  ℕ, ◌≡◌, refl, sym, ap, ◌∙◌, Bool, true, false, List, [], ◌∷◌, ◌++◌, none, ◌≤◌,
}
use web3_pi_ups_service.Agent.{
  Agent, Turn, received, dispatched, checked, measured, Ran, commands_of, dispatch_next, check,
  take_turn, run,
}
use web3_pi_ups_service.Config.{Config}
use web3_pi_ups_service.HostMetrics.Tick
use web3_pi_ups_service.HostMetrics.Tick.{sample_of}
use web3_pi_ups_service.Proto.Frame.{Frame}
use web3_pi_ups_service.ShutdownSm.{step}
use web3_pi_ups_service.ShutdownSm.Countdown.{Input, tick, apply, apply_all}
use web3_pi_ups_service.ShutdownSm.Loop.{shutdown_sm_loop}
use web3_pi_ups_service.State.{State}
use web3_pi_ups_service.World.{Env, Effect}
use web3_pi_ups_service.Agent.Writes.{
  inputs_of, inputs, next_writes, tick_of, loop_writes, handle-Writes,
}
use web3_pi_ups_service.ShutdownSm.Countdown.{Began, initiated-Began}
use web3_pi_ups_service.ShutdownSm.Decisions.{pending}
use web3_pi_ups_service.World.{elapsed_secs}

-- Effects before a run.
abbrev before : List Effect → State × List Effect → State × List Effect
before es (s, later) = (s, es ++ later)

module _ (cfg : Config) where
  -- What a turn is to the shutdown task, and to the state.
  record IsTurn (is : List Input) (a : Agent) (t : Ran) : Type 0 where
    loops :
        (js : List Input)
        → shutdown_sm_loop cfg.battery cfg.shutdown (is ++ js) a.waits a.state
          ≡ before t.shutdown_effects
              (shutdown_sm_loop cfg.battery cfg.shutdown js t.agent.waits t.agent.state)
    applies : t.agent.state ≡ apply_all cfg.battery cfg.shutdown is a.state

  dispatch_next-IsTurn :
      (env : Env) (inbound : List Frame) (a : Agent)
      → IsTurn (next_writes env inbound) a (dispatch_next cfg env inbound a)
  unfolding dispatch_next
  dispatch_next-IsTurn env [] a = record { loops = λ js. refl; applies = refl }
  dispatch_next-IsTurn env (f ∷ inbound) a =
      let (no_ticks, same) =
        handle-Writes cfg.battery cfg.shutdown env (commands_of cfg) f a.state in
      record {
        loops = λ js.
            loop_writes cfg.battery cfg.shutdown (next_writes env (f ∷ inbound)) js a.waits a.state
              no_ticks
            ∙ ap (λ s. shutdown_sm_loop cfg.battery cfg.shutdown js a.waits s) (sym same);
        applies = same;
      }

  check-IsTurn :
      (env : Env) (a : Agent) (waits : Bool)
      → a.waits ≡ waits
      → IsTurn (tick_of env waits) a (check cfg env waits a)
  unfolding check shutdown_sm_loop apply
  check-IsTurn env a true e = record { loops = λ js. refl; applies = refl }
  check-IsTurn env a false e = record {
    loops = λ js. ap (λ w. shutdown_sm_loop cfg.battery cfg.shutdown (tick env ∷ js) w a.state) e;
    applies = refl;
  }

  take_turn-IsTurn :
      (turn : Turn) (a : Agent) → IsTurn (inputs_of cfg turn a) a (take_turn cfg turn a)
  unfolding take_turn
  take_turn-IsTurn (received bytes) a = record { loops = λ js. refl; applies = refl }
  take_turn-IsTurn (dispatched env) a = dispatch_next-IsTurn env a.inbound a
  take_turn-IsTurn (checked env) a = check-IsTurn env a a.waits refl
  take_turn-IsTurn (measured env r) a =
      unfold shutdown_sm_loop apply Tick.tick in record { loops = λ js. refl; applies = refl }

  -- The run of the agent's tasks, in any order of their turns, is a run of the shutdown task among
  -- writes of other tasks: the state and the effects of the shutdown task are the same.
  pub run-shutdown_sm_loop :
      (turns : List Turn) (a : Agent)
      → let r = run cfg turns a in
        shutdown_sm_loop cfg.battery cfg.shutdown (inputs cfg turns a) a.waits a.state
        ≡ (r.agent.state, r.shutdown_effects)
  unfolding run
  run-shutdown_sm_loop [] a = unfold shutdown_sm_loop in refl
  run-shutdown_sm_loop (turn ∷ turns) a =
      let first = take_turn cfg turn a in
      let same = take_turn-IsTurn turn a in
      same.loops (inputs cfg turns first.agent)
      ∙ ap (before first.shutdown_effects) (run-shutdown_sm_loop turns first.agent)

  apply_all-append :
      (is js : List Input) (s : State)
      → apply_all cfg.battery cfg.shutdown (is ++ js) s
        ≡ apply_all cfg.battery cfg.shutdown js (apply_all cfg.battery cfg.shutdown is s)
  apply_all-append [] js s = refl
  apply_all-append (i ∷ is) js s = apply_all-append is js (apply cfg.battery cfg.shutdown i s)

  run-apply_all :
      (turns : List Turn) (a : Agent)
      → (run cfg turns a).agent.state
        ≡ apply_all cfg.battery cfg.shutdown (inputs cfg turns a) a.state
  unfolding run
  run-apply_all [] a = refl
  run-apply_all (turn ∷ turns) a =
      let first = take_turn cfg turn a in
      run-apply_all turns first.agent
      ∙ ap (apply_all cfg.battery cfg.shutdown (inputs cfg turns first.agent))
          (take_turn-IsTurn turn a).applies
      ∙ sym (apply_all-append (inputs_of cfg turn a) (inputs cfg turns first.agent) a.state)

  -- Whatever bytes, frames and readings came, in whatever order the tasks took their turns from a
  -- state with no countdown: where a tick of the shutdown task then initiates shutdown, an earlier
  -- tick found the battery low, with no valid supply, and started the countdown, at least the
  -- configured delay ago, and it was not cancelled or started anew since.
  pub run-Began :
      (turns : List Turn) (env : Env) (a : Agent)
      → pending a.state ≡ none
      → (step env cfg.battery cfg.shutdown (run cfg turns a).agent.state).initiated ≡ true
      → (start : ℕ) × Began cfg.battery cfg.shutdown start (inputs cfg turns a) a.state
        × (cfg.shutdown.delay_seconds ≤ elapsed_secs env start)
  run-Began turns env a fresh h =
      initiated-Began cfg.battery cfg.shutdown (inputs cfg turns a) env a.state fresh (
        ap (λ s. (step env cfg.battery cfg.shutdown s).initiated) (sym (run-apply_all turns a)) ∙ h)
