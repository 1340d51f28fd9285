-- ===== src/Agent/Alarm.antt =====
-- The countdown among the agent's turns (src/main.rs, src/shutdown_sm.rs).
use web3_pi_ups_service.Prelude.{
  ℕ, ◌≤◌, ◌≡◌, ◌⊎◌, inl, inr, refl, ◌∙◌, Bool, true, false, Bool-cases, none, some, List, [], ◌∷◌,
  ◌++◌,
}
use web3_pi_ups_service.Agent.{
  Agent, Turn, received, dispatched, checked, measured, dispatch_next, check, take_turn, run,
}
use web3_pi_ups_service.Config.{Config}
use web3_pi_ups_service.HostMetrics.Tick
use web3_pi_ups_service.ShutdownSm.{step}
use web3_pi_ups_service.ShutdownSm.Decisions.{pending, IsLow, step-initiated_iff}
use web3_pi_ups_service.ShutdownSm.Liveness.{step-low, step-starts}
use web3_pi_ups_service.State.{update_host_sample, next_seq}
use web3_pi_ups_service.World.{Env, elapsed_secs}
use web3_pi_ups_service.Agent.Triggers.{dispatch_next-kept}

module _ (cfg : Config) where
  -- If it is a tick of the shutdown task, it finds the battery low and without supply.
  abbrev pub LowTurn : Turn → Agent → Type 0
  LowTurn (checked env) a = IsLow cfg.battery a.state.inner.last_power
  LowTurn _ a = Unit

  abbrev pub LowTurns : List Turn → Agent → Type 0
  LowTurns [] a = Unit
  LowTurns (turn ∷ turns) a = LowTurn turn a × LowTurns turns (take_turn cfg turn a).agent

  -- The countdown of `start` goes on, or shutdown has been initiated.
  abbrev pub Alarmed : ℕ → Agent → Type 0
  Alarmed start a = (a.waits ≡ true) ⊎ ((a.waits ≡ false) × (pending a.state ≡ some start))

  check-Alarmed :
      (env : Env) (a : Agent) (start : ℕ) (waits : Bool)
      → a.waits ≡ waits
      → (waits ≡ true) ⊎ (pending a.state ≡ some start)
      → IsLow cfg.battery a.state.inner.last_power
      → Alarmed start (check cfg env waits a).agent
  unfolding check
  check-Alarmed env a start true e h low = inl e
  check-Alarmed env a start false e (inl h) low = cc h
  check-Alarmed env a start false e (inr h) low =
      elim (Bool-cases (step env cfg.battery cfg.shutdown a.state).initiated) [
        | inl done ↦ inl done
        | inr waiting ↦ inr (waiting, step-low cfg.battery cfg.shutdown env a.state start h low)
      ]

  waits_or_counts :
      (start : ℕ) (a : Agent) → Alarmed start a → (a.waits ≡ true) ⊎ (pending a.state ≡ some start)
  waits_or_counts start a (inl waits) = inl waits
  waits_or_counts start a (inr (goes_on, e)) = inr e

  -- What keeps `waits` and the pending time keeps the alarm.
  kept-Alarmed :
      (start : ℕ) (a b : Agent)
      → b.waits ≡ a.waits
      → pending b.state ≡ pending a.state
      → Alarmed start a
      → Alarmed start b
  kept-Alarmed start a b w p (inl waits) = inl (w ∙ waits)
  kept-Alarmed start a b w p (inr (goes_on, e)) = inr (w ∙ goes_on, p ∙ e)

  take_turn-Alarmed :
      (turn : Turn) (a : Agent) (start : ℕ)
      → Alarmed start a
      → LowTurn turn a
      → Alarmed start (take_turn cfg turn a).agent
  unfolding take_turn
  take_turn-Alarmed (received bytes) a start h low = h
  take_turn-Alarmed (dispatched env) a start h low =
      let kept = dispatch_next-kept cfg env a.inbound a in
      kept-Alarmed start a (dispatch_next cfg env a.inbound a).agent kept.0 kept.1 h
  take_turn-Alarmed (checked env) a start h low =
      check-Alarmed env a start a.waits refl (waits_or_counts start a h) low
  take_turn-Alarmed (measured env r) a start h low =
      unfold Tick.tick update_host_sample next_seq in h

  -- Whether shutdown has been initiated after the delay.
  check-initiated :
      (env : Env) (a : Agent) (start : ℕ) (waits : Bool)
      → a.waits ≡ waits
      → (waits ≡ true) ⊎ (pending a.state ≡ some start)
      → IsLow cfg.battery a.state.inner.last_power
      → cfg.shutdown.delay_seconds ≤ elapsed_secs env start
      → (check cfg env waits a).agent.waits ≡ true
  unfolding check
  check-initiated env a start true e h low due = e
  check-initiated env a start false e (inl h) low due = cc h
  check-initiated env a start false e (inr h) low due =
      (step-initiated_iff env cfg.battery cfg.shutdown a.state start h).1 (low, due)

  -- An alarm that goes on for the delay leads to shutdown.
  pub run-initiated :
      (turns : List Turn) (env : Env) (a : Agent) (start : ℕ)
      → Alarmed start a
      → LowTurns (turns ++ (checked env ∷ [])) a
      → cfg.shutdown.delay_seconds ≤ elapsed_secs env start
      → (run cfg (turns ++ (checked env ∷ [])) a).agent.waits ≡ true
  unfolding run
  run-initiated [] env a start h low due =
      unfold take_turn in
      check-initiated env a start a.waits refl (waits_or_counts start a h) low.0 due
  run-initiated (turn ∷ turns) env a start h (low, lows) due =
      run-initiated turns env (take_turn cfg turn a).agent start
        (take_turn-Alarmed turn a start h low) lows due

  -- The tick that finds the battery low first begins the countdown.
  pub check-starts :
      (env : Env) (a : Agent) (waits : Bool)
      → a.waits ≡ waits
      → waits ≡ false
      → pending a.state ≡ none
      → IsLow cfg.battery a.state.inner.last_power
      → Alarmed env.now (check cfg env waits a).agent
  unfolding check
  check-starts env a true e goes_on fresh low = cc goes_on
  check-starts env a false e goes_on fresh low =
      elim (Bool-cases (step env cfg.battery cfg.shutdown a.state).initiated) [
        | inl done ↦ inl done
        | inr waiting ↦ inr (waiting, step-starts cfg.battery cfg.shutdown env a.state fresh low)
      ]
