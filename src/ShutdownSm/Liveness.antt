-- ===== src/ShutdownSm/Liveness.antt =====
-- A battery that stays low leads to shutdown (src/shutdown_sm.rs).
use web3_pi_ups_service.Prelude.{
  ℕ, ◌≤◌, ◌≡◌, ap, ◌∙◌, true, Option, none, some, List, [], ◌∷◌, ◌++◌, arith,
}
use web3_pi_ups_service.Config.{BatteryConfig, ShutdownConfig}
use web3_pi_ups_service.Proto.Payloads.PowerStatusV1.{PowerStatusV1}
use web3_pi_ups_service.State.{
  State, snapshot, set_shutdown_pending, update_power, update_power_event, update_net, record_hello,
  update_host_sample, next_seq,
}
use web3_pi_ups_service.World.{Env, elapsed_secs}
use web3_pi_ups_service.ShutdownSm.{step_power, step}
use web3_pi_ups_service.ShutdownSm.Decisions.{pending, IsLow, step-initiated_iff}
use web3_pi_ups_service.ShutdownSm.Countdown.{Input, tick, apply, apply_all}

module _ (battery : BatteryConfig) (shutdown : ShutdownConfig) where
  -- If the input is a tick, it finds the battery low and without supply.
  abbrev pub LowAt : Input → State → Type 0
  LowAt (tick env) s = IsLow battery s.inner.last_power
  LowAt _ s = Unit {0}

  abbrev pub LowAtTicks : List Input → State → Type 0
  LowAtTicks [] s = Unit {0}
  LowAtTicks (i ∷ is) s = LowAt i s × LowAtTicks is (apply battery shutdown i s)

  step_power-low :
      (env : Env) (s : State) (start : ℕ) (p : Option PowerStatusV1)
      → pending s ≡ some start
      → IsLow battery p
      → pending (step_power env battery shutdown s (some start) p).state ≡ some start
  unfolding step_power
  step_power-low env s start none e low = elim low [ ]
  step_power-low env s start (some p) e low = ground arith

  step_power-starts :
      (env : Env) (s : State) (p : Option PowerStatusV1)
      → IsLow battery p
      → pending (step_power env battery shutdown s none p).state ≡ some env.now
  unfolding step_power set_shutdown_pending
  step_power-starts env s none low = elim low [ ]
  step_power-starts env s (some p) low = ground arith

  -- A tick that finds the battery low keeps the countdown, and starts one where there is none.
  pub step-low :
      (env : Env) (s : State) (start : ℕ)
      → pending s ≡ some start
      → IsLow battery s.inner.last_power
      → pending (step env battery shutdown s).state ≡ some start
  unfolding step snapshot
  step-low env s start e low =
      ap (λ o. pending (step_power env battery shutdown s o s.inner.last_power).state) e
      ∙ step_power-low env s start s.inner.last_power e low

  pub step-starts :
      (env : Env) (s : State)
      → pending s ≡ none
      → IsLow battery s.inner.last_power
      → pending (step env battery shutdown s).state ≡ some env.now
  unfolding step snapshot
  step-starts env s e low =
      ap (λ o. pending (step_power env battery shutdown s o s.inner.last_power).state) e
      ∙ step_power-starts env s s.inner.last_power low

  apply-low :
      (i : Input) (s : State) (start : ℕ)
      → pending s ≡ some start
      → LowAt i s
      → pending (apply battery shutdown i s) ≡ some start
  unfolding apply step snapshot update_power update_power_event update_net record_hello
      update_host_sample next_seq
  apply-low (tick env) s start e low = step-low env s start e low
  apply-low _ s start e low = e

  kept_to_end :
      (is : List Input) (env : Env) (s : State) (start : ℕ)
      → pending s ≡ some start
      → LowAtTicks (is ++ (tick env ∷ [])) s
      → shutdown.delay_seconds ≤ elapsed_secs env start
      → (step env battery shutdown (apply_all battery shutdown is s)).initiated ≡ true
  kept_to_end [] env s start e low h =
      (step-initiated_iff env battery shutdown s start e).1 (low.0, h)
  kept_to_end (i ∷ is) env s start e low h =
      kept_to_end is env (apply battery shutdown i s) start (apply-low i s start e low.0) low.1 h

  -- From a state with no countdown: if a first tick and every tick after it finds the battery low
  -- and without supply, then a tick that comes the configured delay after the first, or later,
  -- initiates shutdown. The other tasks write to the state at any time.
  pub low-initiated :
      (first env : Env) (is : List Input) (s : State)
      → pending s ≡ none
      → LowAtTicks (tick first ∷ (is ++ (tick env ∷ []))) s
      → shutdown.delay_seconds ≤ elapsed_secs env first.now
      → (step env battery shutdown (apply_all battery shutdown (tick first ∷ is) s)).initiated
        ≡ true
  unfolding apply step snapshot
  low-initiated first env is s fresh low h =
      kept_to_end is env (apply battery shutdown (tick first) s) first.now
        (step-starts first s fresh low.0) low.1 h
