-- ===== src/Agent/Triggers.antt =====
-- When the shutdown task of the agent starts the shutdown (src/main.rs, src/shutdown_sm.rs).
use web3_pi_ups_service.Prelude.{
  ℕ, ◌≡◌, inl, inr, refl, sym, ap, ◌∙◌, Bool, true, false, Bool-cases, Option, none, some, List, [],
  ◌∷◌, ◌++◌, append_assoc, append-nil, arith,
}
use web3_pi_ups_service.Agent.{
  Agent, Turn, received, dispatched, checked, measured, commands_of, dispatch_next, check,
  take_turn, run,
}
use web3_pi_ups_service.Config.{Config, BatteryConfig, ShutdownConfig}
use web3_pi_ups_service.Dispatcher.Isolation.{handle-IsIsolated}
use web3_pi_ups_service.Proto.Frame.{Frame}
use web3_pi_ups_service.Proto.Payloads.PowerStatusV1.{PowerStatusV1}
use web3_pi_ups_service.ShutdownSm.{trigger_shutdown, decide, step_power, step}
use web3_pi_ups_service.ShutdownSm.Decisions.{pending}
use web3_pi_ups_service.State.{State, snapshot}
use web3_pi_ups_service.World.{Env, Effect}

-- The shutdown task has attempted to shut down, at the end of what it did.
abbrev pub Triggered : ShutdownConfig → List Effect → Type 0
Triggered shutdown es =
    (before : List Effect) × (env : Env) × (es ≡ before ++ trigger_shutdown env shutdown)

decide-triggers :
    (env : Env) (battery : BatteryConfig) (shutdown : ShutdownConfig) (s : State)
    (p : PowerStatusV1) (since : Option ℕ) (low : Bool)
    → (decide env battery shutdown s p since low).initiated ≡ true
    → (decide env battery shutdown s p since low).effects ≡ trigger_shutdown env shutdown
unfolding decide
decide-triggers env battery shutdown s p none true h = cc h
decide-triggers env battery shutdown s p (some start) true h = ground arith
decide-triggers env battery shutdown s p (some start) false h = ground arith
decide-triggers env battery shutdown s p none false h = cc h

step_power-triggers :
    (env : Env) (battery : BatteryConfig) (shutdown : ShutdownConfig) (s : State) (since : Option ℕ)
    (p : Option PowerStatusV1)
    → (step_power env battery shutdown s since p).initiated ≡ true
    → (step_power env battery shutdown s since p).effects ≡ trigger_shutdown env shutdown
unfolding step_power
step_power-triggers env battery shutdown s since none h = cc h
step_power-triggers env battery shutdown s since (some p) h =
    decide-triggers env battery shutdown s p since _ h

module _ (cfg : Config) where
  pub dispatch_next-kept :
      (env : Env) (inbound : List Frame) (a : Agent)
      → let r = dispatch_next cfg env inbound a in
        (r.agent.waits ≡ a.waits)
        × (pending r.agent.state ≡ pending a.state)
        × (r.shutdown_effects ≡ [])
  unfolding dispatch_next
  dispatch_next-kept env [] a = (refl, refl, refl)
  dispatch_next-kept env (f ∷ inbound) a =
      (refl, (handle-IsIsolated env (commands_of cfg) f a.state).kept.pending_kept, refl)

  -- The shutdown task that has initiated shutdown does nothing more.
  check-quiet :
      (env : Env) (a : Agent) (waits : Bool)
      → a.waits ≡ true
      → waits ≡ true
      → let r = check cfg env waits a in (r.agent.waits ≡ true) × (r.shutdown_effects ≡ [])
  unfolding check
  check-quiet env a true e h = (e, refl)
  check-quiet env a false e h = cc h

  take_turn-quiet :
      (turn : Turn) (a : Agent)
      → a.waits ≡ true
      → let r = take_turn cfg turn a in (r.agent.waits ≡ true) × (r.shutdown_effects ≡ [])
  unfolding take_turn
  take_turn-quiet (received bytes) a h = (h, refl)
  take_turn-quiet (dispatched env) a h =
      let kept = dispatch_next-kept env a.inbound a in (kept.0 ∙ h, kept.2)
  take_turn-quiet (checked env) a h = check-quiet env a a.waits h h
  take_turn-quiet (measured env r) a h = (h, refl)

  run-quiet :
      (turns : List Turn) (a : Agent) → a.waits ≡ true → (run cfg turns a).shutdown_effects ≡ []
  unfolding run
  run-quiet [] a h = refl
  run-quiet (turn ∷ turns) a h =
      let (waits, quiet) = take_turn-quiet turn a h in
      λ i. quiet i ++ run-quiet turns (take_turn cfg turn a).agent waits i

  check-triggers :
      (env : Env) (a : Agent) (waits : Bool)
      → waits ≡ false
      → (check cfg env waits a).agent.waits ≡ true
      → (check cfg env waits a).shutdown_effects ≡ trigger_shutdown env cfg.shutdown
  unfolding check step snapshot
  check-triggers env a true e h = cc e
  check-triggers env a false e h =
      step_power-triggers env cfg.battery cfg.shutdown a.state _ a.state.inner.last_power h

  take_turn-triggers :
      (turn : Turn) (a : Agent)
      → a.waits ≡ false
      → (take_turn cfg turn a).agent.waits ≡ true
      → (env : Env) × ((take_turn cfg turn a).shutdown_effects ≡ trigger_shutdown env cfg.shutdown)
  unfolding take_turn
  take_turn-triggers (received bytes) a e h = cc (sym e ∙ h)
  take_turn-triggers (dispatched env) a e h =
      cc (sym e ∙ sym (dispatch_next-kept env a.inbound a).0 ∙ h)
  take_turn-triggers (checked env) a e h = (env, check-triggers env a a.waits e h)
  take_turn-triggers (measured env r) a e h = cc (sym e ∙ h)

  -- A run in which shutdown is initiated ends the shutdown task's effects with the attempt.
  pub run-triggers :
      (turns : List Turn) (a : Agent)
      → a.waits ≡ false
      → (run cfg turns a).agent.waits ≡ true
      → Triggered cfg.shutdown (run cfg turns a).shutdown_effects
  unfolding run
  run-triggers [] a e h = cc (sym e ∙ h)
  run-triggers (turn ∷ turns) a e h =
      let first = take_turn cfg turn a in
      elim (Bool-cases first.agent.waits) [
        | inl done ↦
            let (env, es) = take_turn-triggers turn a e done in
            ([], env, (λ i. es i ++ run-quiet turns first.agent done i) ∙ append-nil _)
        | inr goes_on ↦
            let (before, env, es) = run-triggers turns first.agent goes_on h in
            (
              first.shutdown_effects ++ before,
              env,
              ap (λ t. first.shutdown_effects ++ t) es
                  ∙ sym (append_assoc first.shutdown_effects before _),
            )
      ]
