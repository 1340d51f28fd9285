-- ===== src/ShutdownSm/Countdown.antt =====
-- Runs of the shutdown state machine among the other tasks (src/shutdown_sm.rs, src/state.rs).
use web3_pi_ups_service.Prelude.{
  ℕ, ◌≤◌, ◌≡◌, ◌⊎◌, inl, inr, refl, ap, subst, ◌∙◌, true, Option, none, some, List, [], ◌∷◌, ◌++◌,
  arith,
}
use web3_pi_ups_service.Config.{BatteryConfig, ShutdownConfig}
use web3_pi_ups_service.HostMetrics.Sample.{HostMetricsSample}
use web3_pi_ups_service.Proto.Payloads.NetStatusV1.{NetStatusV1}
use web3_pi_ups_service.Proto.Payloads.PowerStatusV1.{PowerStatusV1}
use web3_pi_ups_service.Proto.Payloads.SysHelloV1.{SysHelloV1}
use web3_pi_ups_service.State.{
  State, snapshot, set_shutdown_pending, update_power, update_power_event, update_net, record_hello,
  update_host_sample, next_seq,
}
use web3_pi_ups_service.World.{Env, elapsed_secs}
use web3_pi_ups_service.ShutdownSm.{step_power, step}
use web3_pi_ups_service.ShutdownSm.Decisions.{pending, IsLow, step-initiated}

-- What happens to the shared state: a tick of the state machine, or a write of another task.
pub data Input : Type 0 where
  tick : Env → Input
  power : ℕ → PowerStatusV1 → Input
  power_event : ℕ → ℕ → Input
  net : ℕ → NetStatusV1 → Input
  hello : ℕ → SysHelloV1 → Input
  host_sample : ℕ → HostMetricsSample → Input
  seq : ℕ → Input

module _ (battery : BatteryConfig) (shutdown : ShutdownConfig) where
  unfoldable pub apply : Input → State → State
  apply (tick env) s = (step env battery shutdown s).state
  apply (power now p) s = update_power now p s
  apply (power_event now e) s = update_power_event now e s
  apply (net now n) s = update_net now n s
  apply (hello src h) s = record_hello src h s
  apply (host_sample now m) s = update_host_sample now m s
  apply (seq dst) s = (next_seq dst s).1

  abbrev pub apply_all : List Input → State → State
  apply_all [] s = s
  apply_all (i ∷ is) s = apply_all is (apply i s)

  -- The countdown of `start` is pending before each of the inputs, and after the last.
  abbrev pub Keeps : ℕ → List Input → State → Type 0
  Keeps start [] s = pending s ≡ some start
  Keeps start (i ∷ is) s = (pending s ≡ some start) × Keeps start is (apply i s)

  -- The step at `env`, on `s`, starts a countdown.
  abbrev pub Starts : Env → State → Type 0
  Starts env s = (pending s ≡ none) × IsLow battery s.inner.last_power

  step_power-pending :
      (env : Env) (s : State) (since : Option ℕ) (p : Option PowerStatusV1) (start : ℕ)
      → since ≡ pending s
      → pending (step_power env battery shutdown s since p).state ≡ some start
      → (since ≡ some start) ⊎ ((since ≡ none) × IsLow battery p × (start ≡ env.now))
  unfolding step_power set_shutdown_pending
  step_power-pending env s since none start e h = inl (e ∙ h)
  step_power-pending env s none (some p) start e h = ground arith
  step_power-pending env s (some t) (some p) start e h = ground arith

  -- One input: a pending countdown was pending before, or a tick has just started it.
  apply-pending :
      (i : Input) (s : State) (start : ℕ)
      → pending (apply i s) ≡ some start
      → (pending s ≡ some start) ⊎ ((env : Env) × (i ≡ tick env) × Starts env s × (start ≡ env.now))
  unfolding apply step snapshot update_power update_power_event update_net record_hello
      update_host_sample next_seq
  apply-pending (tick env) s start h =
      elim (step_power-pending env s (pending s) s.inner.last_power start refl h) [
        | inl e ↦ inl e
        | inr (e, low, t) ↦ inr (env, refl, (e, low), t)
      ]
  apply-pending (power now p) s start h = inl h
  apply-pending (power_event now e) s start h = inl h
  apply-pending (net now n) s start h = inl h
  apply-pending (hello src e) s start h = inl h
  apply-pending (host_sample now m) s start h = inl h
  apply-pending (seq dst) s start h = inl h

  -- The countdown of `start` began at one of the inputs, a tick on a low battery with no countdown
  -- pending, and was not cancelled since.
  abbrev pub Began : ℕ → List Input → State → Type 0
  Began start is s =
      (before : List Input) × (env : Env) × (after : List Input) × (is
        ≡ before ++ (tick env ∷ after))
      × (start ≡ env.now)
      × Starts env (apply_all before s)
      × Keeps start after (apply (tick env) (apply_all before s))

  Keeps-pending :
      (start : ℕ) (is : List Input) (s : State) → Keeps start is s → pending s ≡ some start
  Keeps-pending start [] s k = k
  Keeps-pending start (i ∷ is) s k = k.0

  pending-Began :
      (is : List Input) (s : State) (start : ℕ)
      → pending (apply_all is s) ≡ some start
      → Keeps start is s ⊎ Began start is s
  pending-Began [] s start h = inl h
  pending-Began (i ∷ is) s start h = elim (pending-Began is (apply i s) start h) [
    | inr (before, env, after, e, t, starts, keeps) ↦
        inr (i ∷ before, env, after, ap (λ l. i ∷ l) e, t, starts, keeps)
    | inl keeps ↦ elim (apply-pending i s start (Keeps-pending start is (apply i s) keeps)) [
      | inl e ↦ inl (e, keeps)
      | inr (env, e, starts, t) ↦ inr (
        [],
        env,
        is,
        ap (λ j. j ∷ is) e,
        t,
        starts,
        subst (λ j. Keeps start is (apply j s)) e keeps,
      )
    ]
  ]

  -- Shutdown is never initiated at once: in every run from a state with no countdown, a tick that
  -- initiates it has an earlier tick that found the battery low and started the countdown, at
  -- least the configured delay ago, and at no moment between them was the countdown cancelled or
  -- started anew. The other tasks write to the state at any time.
  pub initiated-Began :
      (is : List Input) (env : Env) (s : State)
      → pending s ≡ none
      → (step env battery shutdown (apply_all is s)).initiated ≡ true
      → (start : ℕ) × Began start is s × (shutdown.delay_seconds ≤ elapsed_secs env start)
  initiated-Began is env s fresh h =
      let (start, e, low, delay) = step-initiated env battery shutdown (apply_all is s) h in
      elim (pending-Began is s start e) [
        | inr began ↦ (start, began, delay)
        | inl keeps ↦ cc (fresh, Keeps-pending start is s keeps)
      ]
