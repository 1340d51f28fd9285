-- ===== src/Agent/Shutdown.antt =====
-- From a low battery on the wire to the shutdown of the host (src/main.rs).
use web3_pi_ups_service.Prelude.{
  ◌≤◌, ◌≡◌, ◌⊎◌, refl, sym, ap, subst, ◌∙◌, true, false, none, some, List, [], ◌∷◌, ◌++◌, length,
  arith,
}
use web3_pi_ups_service.Agent.{
  Agent, Turn, received, dispatched, checked, commands_of, dispatch_next, take_turn, run,
}
use web3_pi_ups_service.Config.{Config}
use web3_pi_ups_service.Dispatcher.Stores.{IsPowerStatus, handle-power_v1}
use web3_pi_ups_service.Proto.{max_payload}
use web3_pi_ups_service.Proto.Deframer
use web3_pi_ups_service.Proto.Deframer.Sound.{frames}
use web3_pi_ups_service.Proto.Deframer.Stream.{feed_slice-wire}
use web3_pi_ups_service.Proto.Frame.{Frame}
use web3_pi_ups_service.Proto.Frame.Wire.{wire}
use web3_pi_ups_service.Proto.Payloads.PowerStatusV1
use web3_pi_ups_service.Proto.Payloads.PowerStatusV1.{PowerStatusV1, power_status_v1_round_trip}
use web3_pi_ups_service.ShutdownSm.Decisions.{pending, IsLow}
use web3_pi_ups_service.State.{update_power}
use web3_pi_ups_service.World.{Env, elapsed_secs}
use web3_pi_ups_service.Agent.Alarm.{LowTurns, Alarmed, run-initiated, check-starts}
use web3_pi_ups_service.Agent.Triggers.{Triggered, run-triggers}

-- The agent after a frame has been received and handled, and a tick.
abbrev pub told : Config → Frame → Env → Agent → Agent
told cfg f now a =
    (take_turn cfg (dispatched now) (take_turn cfg (received (wire f)) a).agent).agent

module _ (cfg : Config) (f : Frame) (p : PowerStatusV1) (a : Agent)
    (idle : (a.deframer.state ≡ Deframer.State.sync1) ⊎ (a.deframer.state ≡ Deframer.State.sync2))
    (empty : a.inbound ≡ []) (is_status : IsPowerStatus f) (in_range : PowerStatusV1.InRange p)
    (payload : f.payload ≡ PowerStatusV1.encode p) where
  short : length f.payload ≤ max_payload
  short =
      let size : length f.payload ≡ 20 =
        ap length payload ∙ (power_status_v1_round_trip p in_range).1 in
      omega arith

  arrived : (take_turn cfg (received (wire f)) a).agent.inbound ≡ f ∷ []
  unfolding take_turn
  arrived = λ i. empty i ++ frames ((feed_slice-wire a.deframer f idle short) i).1

  -- The status is stored, and nothing else changes for the shutdown task.
  stored :
      (now : Env)
      → ((told cfg f now a).state ≡ update_power now.now p a.state)
        × ((told cfg f now a).waits ≡ a.waits)
  unfolding take_turn dispatch_next
  stored now =
      let b = (take_turn cfg (received (wire f)) a).agent in
      (
        ap (λ inbound. (dispatch_next cfg now inbound b).agent.state) arrived
            ∙ ap (λ r. r.0)
                (handle-power_v1 now (commands_of cfg) f a.state p is_status in_range payload),
        ap (λ inbound. (dispatch_next cfg now inbound b).agent.waits) arrived,
      )

  -- Let no shutdown be pending or initiated, let the deframer wait for a frame and the channel be
  -- empty. Then bytes of a frame with an encoded power status that is low and without supply, the
  -- handling of the frame and a tick of the shutdown task begin a countdown, and if later ticks
  -- find the battery low, whatever turns the tasks take between, then a tick after the configured
  -- delay, or one before it, has initiated shutdown: the shutdown task's effects end with the
  -- attempt to shut the host down.
  pub low_status-shutdown :
      (now first env : Env) (turns : List Turn)
      → a.waits ≡ false
      → pending a.state ≡ none
      → IsLow cfg.battery (some p)
      → LowTurns cfg
          (turns ++ (checked env ∷ []))
          (take_turn cfg (checked first) (told cfg f now a)).agent
      → cfg.shutdown.delay_seconds ≤ elapsed_secs env first.now
      → let r =
          run cfg
            (received (wire f) ∷ dispatched now ∷ checked first ∷ (turns ++ (checked env ∷ [])))
            a in
        (r.agent.waits ≡ true) × Triggered cfg.shutdown r.shutdown_effects
  unfolding run
  low_status-shutdown now first env turns starts fresh low lows due =
      let b = told cfg f now a in
      let (state, waits) = stored now in
      let fresh_b : pending b.state ≡ none = ap pending state ∙ (unfold update_power in fresh) in
      let low_b : IsLow cfg.battery b.state.inner.last_power =
        subst (λ s. IsLow cfg.battery s.inner.last_power) (sym state)
          (unfold update_power in low) in
      let begun : Alarmed cfg first.now (take_turn cfg (checked first) b).agent =
        unfold take_turn in check-starts cfg first b b.waits refl (waits ∙ starts) fresh_b low_b in
      let done = run-initiated cfg turns env _ first.now begun lows due in
      let all =
        received (wire f) ∷ dispatched now ∷ checked first ∷ (turns ++ (checked env ∷ [])) in
      (done, run-triggers cfg all a starts done)
