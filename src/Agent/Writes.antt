-- ===== src/Agent/Writes.antt =====
-- What the turns of the agent's tasks are to the shared state (src/main.rs, src/dispatcher.rs).
use web3_pi_ups_service.Prelude.{
  ℕ, ◌≡◌, refl, Bool, true, false, if◌then◌else◌, Bool-cases, inl, inr, List, [], ◌∷◌, ◌++◌, All,
  Result, ok, err, arith,
}
use web3_pi_ups_service.Agent.{Agent, Turn, received, dispatched, checked, measured, take_turn}
use web3_pi_ups_service.Commands.{CommandsHandler}
use web3_pi_ups_service.Config.{Config, BatteryConfig, ShutdownConfig}
use web3_pi_ups_service.Dispatcher.{
  is_op, decode_power, on_hello, on_power_status, on_power_event, on_net_status, handle_host,
  handle,
}
use web3_pi_ups_service.HostMetrics.Tick.{sample_of}
use web3_pi_ups_service.Proto.Addr
use web3_pi_ups_service.Proto.Class
use web3_pi_ups_service.Proto.Op
use web3_pi_ups_service.Proto.Frame.{Frame}
use web3_pi_ups_service.Proto.Payloads.NetStatusV1
use web3_pi_ups_service.Proto.Payloads.NetStatusV1.{NetStatusV1}
use web3_pi_ups_service.Proto.Payloads.PowerEventV1
use web3_pi_ups_service.Proto.Payloads.PowerEventV1.{PowerEventV1}
use web3_pi_ups_service.Proto.Payloads.PowerStatusV1.{PowerStatusV1}
use web3_pi_ups_service.Proto.Payloads.SysHelloV1
use web3_pi_ups_service.Proto.Payloads.SysHelloV1.{SysHelloV1}
use web3_pi_ups_service.Proto.Payloads.Wire.{PayloadError}
use web3_pi_ups_service.ShutdownSm.Countdown.{
  Input, tick, power, power_event, net, hello, host_sample, seq, apply, apply_all,
}
use web3_pi_ups_service.ShutdownSm.Loop.{shutdown_sm_loop}
use web3_pi_ups_service.State.{State}
use web3_pi_ups_service.World.{Env}

-- The writes that decoded payloads stand for; one that does not decode stands for none.
abbrev pub hello_writes : ℕ → Result SysHelloV1 PayloadError → List Input
hello_writes src (ok h) = hello src h ∷ []
hello_writes src (err e) = []

abbrev pub power_writes : ℕ → Result PowerStatusV1 PayloadError → List Input
power_writes now (ok p) = power now p ∷ []
power_writes now (err e) = []

abbrev pub event_writes : ℕ → Result PowerEventV1 PayloadError → List Input
event_writes now (ok e) = power_event now e.event ∷ []
event_writes now (err e) = []

abbrev pub net_writes : ℕ → Result NetStatusV1 PayloadError → List Input
net_writes now (ok n) = net now n ∷ []
net_writes now (err e) = []

-- The write that a frame stands for.
abbrev pub frame_writes : Env → Frame → List Input
frame_writes env f =
    if is_op f Class.system Op.System.hello
    then hello_writes f.src (SysHelloV1.decode f.payload)
    else if is_op f Class.power Op.Power.status
    then power_writes env.now (decode_power f.payload)
    else if is_op f Class.power Op.Power.event
    then event_writes env.now (PowerEventV1.decode f.payload)
    else if is_op f Class.net Op.Net.status
    then net_writes env.now (NetStatusV1.decode f.payload)
    else []

abbrev pub next_writes : Env → List Frame → List Input
next_writes env [] = []
next_writes env (f ∷ inbound) = frame_writes env f

-- The shutdown task's tick, unless it waits for ever.
abbrev pub tick_of : Env → Bool → List Input
tick_of env true = []
tick_of env false = tick env ∷ []

-- What a turn stands for: the shutdown task's turn for a tick, the others for writes.
abbrev pub inputs_of : Config → Turn → Agent → List Input
inputs_of cfg (received bytes) a = []
inputs_of cfg (dispatched env) a = next_writes env a.inbound
inputs_of cfg (checked env) a = tick_of env a.waits
inputs_of cfg (measured env r) a =
    host_sample env.now (sample_of cfg.host_metrics.interval_seconds cfg.eth_clients a.prev r)
    ∷ seq Addr.rp2040
    ∷ []

abbrev pub inputs : Config → List Turn → Agent → List Input
inputs cfg [] a = []
inputs cfg (turn ∷ turns) a = inputs_of cfg turn a ++ inputs cfg turns (take_turn cfg turn a).agent

abbrev pub IsWrite : Input → Type 0
IsWrite (tick env) = ⊥
IsWrite _ = Unit {0}

module _ (battery : BatteryConfig) (shutdown : ShutdownConfig) where
  -- Writes in front of a run of the shutdown task.
  pub loop_writes :
      (is js : List Input) (waits : Bool) (s : State)
      → All IsWrite is
      → shutdown_sm_loop battery shutdown (is ++ js) waits s
        ≡ shutdown_sm_loop battery shutdown js waits (apply_all battery shutdown is s)
  unfolding shutdown_sm_loop
  loop_writes [] js waits s w = refl
  loop_writes (tick env ∷ is) js waits s w = elim w.0 [ ]
  loop_writes (power now p ∷ is) js waits s w = loop_writes is js waits _ w.1
  loop_writes (power_event now e ∷ is) js waits s w = loop_writes is js waits _ w.1
  loop_writes (net now n ∷ is) js waits s w = loop_writes is js waits _ w.1
  loop_writes (hello src h ∷ is) js waits s w = loop_writes is js waits _ w.1
  loop_writes (host_sample now m ∷ is) js waits s w = loop_writes is js waits _ w.1
  loop_writes (seq dst ∷ is) js waits s w = loop_writes is js waits _ w.1

  -- What a handler does to the state are the writes, and they are no ticks.
  abbrev pub Writes : List Input → State → State → Type 0
  Writes is s s' = All IsWrite is × (s' ≡ apply_all battery shutdown is s)

  hello-Writes :
      (src : ℕ) (r : Result SysHelloV1 PayloadError) (s : State)
      → Writes (hello_writes src r) s (on_hello src r s)
  unfolding on_hello apply
  hello-Writes src (ok h) s = ((tt, tt), refl)
  hello-Writes src (err e) s = (tt, refl)

  power-Writes :
      (now : ℕ) (r : Result PowerStatusV1 PayloadError) (s : State)
      → Writes (power_writes now r) s (on_power_status now r s)
  unfolding on_power_status apply
  power-Writes now (ok p) s = ((tt, tt), refl)
  power-Writes now (err e) s = (tt, refl)

  event-Writes :
      (now : ℕ) (r : Result PowerEventV1 PayloadError) (s : State)
      → Writes (event_writes now r) s (on_power_event now r s)
  unfolding on_power_event apply
  event-Writes now (ok e) s = ((tt, tt), refl)
  event-Writes now (err e) s = (tt, refl)

  net-Writes :
      (now : ℕ) (r : Result NetStatusV1 PayloadError) (s : State)
      → Writes (net_writes now r) s (on_net_status now r s)
  unfolding on_net_status apply
  net-Writes now (ok n) s = ((tt, tt), refl)
  net-Writes now (err e) s = (tt, refl)

  handle_host-state :
      (env : Env) (h : CommandsHandler) (f : Frame) (s : State) → (handle_host env h f s).0 ≡ s
  unfolding handle_host
  handle_host-state env h f s = ground arith

  pub handle-Writes :
      (env : Env) (h : CommandsHandler) (f : Frame) (s : State)
      → Writes (frame_writes env f) s (handle env h f s).0
  unfolding handle
  handle-Writes env h f s = elim (Bool-cases (is_op f Class.system Op.System.hello)) [
    | inl is_hello ↦ rw is_hello (hello-Writes f.src (SysHelloV1.decode f.payload) s)
    | inr no_hello ↦ elim (Bool-cases (is_op f Class.power Op.Power.status)) [
      | inl is_status ↦ rw (no_hello, is_status) (power-Writes env.now (decode_power f.payload) s)
      | inr no_status ↦ elim (Bool-cases (is_op f Class.power Op.Power.event)) [
        | inl is_event ↦
            rw (no_hello, no_status, is_event)
              (event-Writes env.now (PowerEventV1.decode f.payload) s)
        | inr no_event ↦ elim (Bool-cases (is_op f Class.net Op.Net.status)) [
          | inl is_net ↦
              rw (no_hello, no_status, no_event, is_net)
                (net-Writes env.now (NetStatusV1.decode f.payload) s)
          | inr no_net ↦
              rw (no_hello, no_status, no_event, no_net) (tt, handle_host-state env h f s)
        ]
      ]
    ]
  ]
