-- ===== src/Agent/Numbered.antt =====
-- The sequence numbers of the host's reports, among all tasks (src/state.rs, src/host_metrics/).
use web3_pi_ups_service.Prelude.{
  ℕ, ◌+◌, ◌%◌, ◌<◌, ◌≡◌, refl, ap, ◌∙◌, Bool, true, false, if◌then◌else◌, List, [], ◌∷◌, arith,
}
use web3_pi_ups_service.Agent.{
  Agent, Turn, received, dispatched, checked, measured, dispatch_next, check, take_turn, run,
  commands_of,
}
use web3_pi_ups_service.Config.{Config, BatteryConfig, ShutdownConfig}
use web3_pi_ups_service.Dispatcher.Isolation.{handle-IsIsolated}
use web3_pi_ups_service.HostMetrics.Tick
use web3_pi_ups_service.HostMetrics.Tick.{Readings}
use web3_pi_ups_service.Proto.Addr
use web3_pi_ups_service.Proto.Frame.{Frame}
use web3_pi_ups_service.ShutdownSm.{step, step_power, decide}
use web3_pi_ups_service.State.{
  State, next_for, next_seq, set_shutdown_pending, snapshot, update_host_sample,
}
use web3_pi_ups_service.State.Sequence.{upcoming, upcoming-next_for}
use web3_pi_ups_service.World.{Env, sent}

-- How many turns of the metrics task there were.
abbrev pub reports : List Turn → ℕ
reports [] = 0
reports (measured env r ∷ turns) = 1 + reports turns
reports (_ ∷ turns) = reports turns

step-tx_seq :
    (env : Env) (battery : BatteryConfig) (shutdown : ShutdownConfig) (s : State)
    → (step env battery shutdown s).state.tx_seq ≡ s.tx_seq
unfolding step step_power decide snapshot set_shutdown_pending
step-tx_seq env battery shutdown s = ground arith

module _ (cfg : Config) where
  dispatch_next-tx_seq :
      (env : Env) (inbound : List Frame) (a : Agent)
      → (dispatch_next cfg env inbound a).agent.state.tx_seq ≡ a.state.tx_seq
  unfolding dispatch_next
  dispatch_next-tx_seq env [] a = refl
  dispatch_next-tx_seq env (f ∷ inbound) a =
      (handle-IsIsolated env (commands_of cfg) f a.state).kept.seq_kept

  check-tx_seq :
      (env : Env) (waits : Bool) (a : Agent)
      → (check cfg env waits a).agent.state.tx_seq ≡ a.state.tx_seq
  unfolding check
  check-tx_seq env true a = refl
  check-tx_seq env false a = step-tx_seq env cfg.battery cfg.shutdown a.state

  -- The number that the next report gets.
  abbrev upcoming_report : Agent → ℕ
  upcoming_report a = upcoming a.state.tx_seq Addr.rp2040

  -- What a turn adds to it.
  abbrev advanced : Turn → ℕ → ℕ
  advanced (measured env r) n = (n + 1) % 256
  advanced _ n = n

  take_turn-upcoming_report :
      (turn : Turn) (a : Agent)
      → upcoming_report (take_turn cfg turn a).agent ≡ advanced turn (upcoming_report a)
  unfolding take_turn
  take_turn-upcoming_report (received bytes) a = refl
  take_turn-upcoming_report (dispatched env) a =
      ap (λ q. upcoming q Addr.rp2040) (dispatch_next-tx_seq env a.inbound a)
  take_turn-upcoming_report (checked env) a =
      ap (λ q. upcoming q Addr.rp2040) (check-tx_seq env a.waits a)
  take_turn-upcoming_report (measured env r) a =
      unfold Tick.tick update_host_sample next_seq in
      upcoming-next_for a.state.tx_seq Addr.rp2040 Addr.rp2040

  advanced-reports :
      (turn : Turn) (turns : List Turn) (n : ℕ)
      → (advanced turn n + reports turns) % 256 ≡ (n + reports (turn ∷ turns)) % 256
  advanced-reports (measured env r) turns n = omega arith
  advanced-reports _ turns n = refl

  advanced_lt : (turn : Turn) (n : ℕ) → n < 256 → advanced turn n < 256
  advanced_lt (measured env r) n h = omega arith
  advanced_lt _ n h = h

  run-upcoming_report :
      (turns : List Turn) (a : Agent)
      → upcoming_report a < 256
      → upcoming_report (run cfg turns a).agent ≡ (upcoming_report a + reports turns) % 256
  unfolding run
  run-upcoming_report [] a h = omega arith
  run-upcoming_report (turn ∷ turns) a h =
      let first = take_turn cfg turn a in
      let e = take_turn-upcoming_report turn a in
      run-upcoming_report turns first.agent (rw e (advanced_lt turn (upcoming_report a) h))
      ∙ ap (λ n. (n + reports turns) % 256) e
      ∙ advanced-reports turn turns (upcoming_report a)

  -- Whatever turns the tasks took since a start with no number handed out, in whatever order: while
  -- the outbound channel is open, the next turn of the metrics task sends one frame, to the RP2040,
  -- and its sequence number is the number of turns that task has had, modulo 256. Frames to others,
  -- answers to requests and the steps of the shutdown task do not count.
  pub run-report_seq :
      (turns : List Turn) (env : Env) (r : Readings) (a : Agent)
      → a.state.tx_seq ≡ record { next = [] }
      → env.channel_open ≡ true
      → (f : Frame) × ((take_turn cfg (measured env r) (run cfg turns a).agent).effects
          ≡ sent f ∷ [])
        × (f.dst ≡ 2)
        × (f.seq ≡ reports turns % 256)
  unfolding take_turn Tick.tick update_host_sample next_seq
  run-report_seq turns env r a fresh is_open =
      let b = (run cfg turns a).agent in
      let zero_first : upcoming_report a ≡ 0 =
        ap (λ q. upcoming q Addr.rp2040) fresh ∙ (unfold next_for in refl) in
      let frame = Tick.status_frame (Tick.status_of cfg.eth_clients r) (upcoming_report b) in
      (
        frame,
        ap (λ o. if o then sent frame ∷ [] else []) is_open,
        refl,
        omega (arith, zero_first, run-upcoming_report turns a (omega (arith, zero_first))),
      )
