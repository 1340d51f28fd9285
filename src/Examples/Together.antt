-- ===== src/Examples/Together.antt =====
-- The theorems on the agent's tasks together at work.
use web3_pi_ups_service.Prelude.{
  inl, ◌++◌, ℕ, ◌-◌, some, map, length, append-nil, arith, ◌≤◌, ◌≡◌, refl, true, false, none, All,
  List, [], ◌∷◌,
}
use web3_pi_ups_service.Agent.{
  commands_of, Agent, Turn, received, dispatched, checked, measured, dispatch_next, check,
  take_turn, run,
}
use web3_pi_ups_service.Agent.Numbered.{run-report_seq}
use web3_pi_ups_service.Agent.Confined.{run-IsOneShutdown}
use web3_pi_ups_service.Commands.Allowed.{IsAllowed}
use web3_pi_ups_service.Agent.Refines.{run-Began}
use web3_pi_ups_service.Agent.Alarm.{LowTurns}
use web3_pi_ups_service.Agent.Shutdown.{told, low_status-shutdown}
use web3_pi_ups_service.Agent.Triggers.{Triggered}
use web3_pi_ups_service.Proto.Frame.{Frame}
use web3_pi_ups_service.Proto.Frame.Wire.{wire}
use web3_pi_ups_service.Proto.Payloads.PowerStatusV1
use web3_pi_ups_service.ShutdownSm.Decisions.{IsLow}
use web3_pi_ups_service.State
use web3_pi_ups_service.Agent.Delivered.{run-delivered}
use web3_pi_ups_service.Agent.Typed.{IsTypedAgent, IsTypedTurn, IsTypedRan, run-IsTyped}
use web3_pi_ups_service.Dispatcher.Replies.{sent_frames}
use web3_pi_ups_service.Dispatcher.{handle, decode_power, on_power_status}
use web3_pi_ups_service.Proto.Fletcher.{fletcher8}
use web3_pi_ups_service.HostMetrics.Tick
use web3_pi_ups_service.HostMetrics.Tick.{Readings}
use web3_pi_ups_service.HostMetrics.Tick.Typed.{IsTypedReadings}
use web3_pi_ups_service.Prelude.Int.{negsuc}
use web3_pi_ups_service.Transport.Serial.{bytes, waiting, reader_loop, writer_loop}
use web3_pi_ups_service.Agent.Writes.{inputs}
use web3_pi_ups_service.Config
use web3_pi_ups_service.Config.{Config}
use web3_pi_ups_service.Examples.{at_second, low_power, ping_bytes, state_with}
use web3_pi_ups_service.Proto.Deframer
use web3_pi_ups_service.ShutdownSm.{decide, is_on_battery, step_power, step}
use web3_pi_ups_service.ShutdownSm.Countdown.{Began}
use web3_pi_ups_service.ShutdownSm.Loop.{IsOneShutdown}
use web3_pi_ups_service.Soc.{scan_windows, cell_soc, pack_mv_to_soc_pct}
use web3_pi_ups_service.State.{snapshot, set_shutdown_pending}
use web3_pi_ups_service.World.{elapsed_secs, sent}

abbrev config : Config
config = Config.default_config

-- An agent that knows of a low battery, with no countdown.
abbrev alarmed : Agent
alarmed = record {
  deframer = Deframer.new;
  inbound = [];
  state = state_with low_power none;
  prev = record { prev_cpu = none; prev_net = none };
  waits = false;
}

-- A tick, a frame in two parts, the frame's handling, and a tick.
abbrev turns : List Turn
turns =
    checked (at_second 5)
    ∷ received (0 ∷ 170 ∷ [])
    ∷ received ping_bytes
    ∷ dispatched (at_second 6)
    ∷ checked (at_second 10)
    ∷ []

-- The same without the frame.
abbrev quiet_turns : List Turn
quiet_turns = checked (at_second 5) ∷ dispatched (at_second 6) ∷ checked (at_second 10) ∷ []

due :
    (step
      (at_second 36)
      config.battery
      config.shutdown
      (run config quiet_turns alarmed).agent.state).initiated
    ≡ true
unfolding run take_turn dispatch_next check step step_power decide snapshot set_shutdown_pending
    pack_mv_to_soc_pct cell_soc scan_windows is_on_battery
due = refl

run-Began_example :
    (start : ℕ) × Began config.battery config.shutdown start
      (inputs config quiet_turns alarmed)
      alarmed.state
    × (config.shutdown.delay_seconds ≤ elapsed_secs (at_second 36) start)
run-Began_example = run-Began config quiet_turns (at_second 36) alarmed refl due

run-IsOneShutdown_example :
    IsOneShutdown config.battery config.shutdown (run config turns alarmed).shutdown_effects
    × All (IsAllowed (commands_of config)) (run config turns alarmed).effects
run-IsOneShutdown_example = run-IsOneShutdown config turns alarmed refl

-- The turns above, and a tick of the metrics task.
abbrev readings : Readings
readings = record {
  cpu = none;
  totals = some (record { bytes_rx = 5; bytes_tx = 6 });
  load = some 125;
  temp = some (negsuc 4);
  mem = none;
  disk = none;
  uptime = some 3600;
  is_active = λ unit. none;
}

abbrev measuring : List Turn
measuring =
    received (0 ∷ 170 ∷ [])
    ∷ received ping_bytes
    ∷ dispatched (at_second 6)
    ∷ measured (at_second 7) readings
    ∷ []

readings-IsTyped : IsTypedReadings readings
readings-IsTyped = ground arith

measuring-IsTyped : All IsTypedTurn measuring
measuring-IsTyped = (ground arith, (ground arith, (tt, (readings-IsTyped, tt))))

alarmed-IsTyped : IsTypedAgent alarmed
unfolding Deframer.new
alarmed-IsTyped = ground arith

run-IsTyped_example : IsTypedRan (run config measuring alarmed)
run-IsTyped_example = run-IsTyped config measuring alarmed measuring-IsTyped alarmed-IsTyped

abbrev sent_bytes : List ℕ
sent_bytes = (writer_loop (sent_frames (run config measuring alarmed).effects) 1).1

one_frame : length (sent_frames (run config measuring alarmed).effects) ≡ 1
unfolding run take_turn dispatch_next handle Tick.tick Deframer.new Deframer.feed_slice
    Deframer.feed Deframer.feed_sync1 Deframer.feed_sync2 Deframer.feed_header Deframer.feed_ck_a
    Deframer.feed_ck_b Deframer.feed_end1 Deframer.feed_end2 fletcher8
one_frame = refl

run-delivered_example :
    reader_loop
      (map bytes (sent_bytes ∷ []))
      (record { deframer = Deframer.new; sink = []; room = 64 })
    ≡ (
      waiting,
      record {
        deframer = Deframer.new;
        sink = sent_frames (run config measuring alarmed).effects;
        room = 64 - length (sent_frames (run config measuring alarmed).effects);
      },
    )
run-delivered_example =
    run-delivered config measuring alarmed 1 (sent_bytes ∷ []) 64 measuring-IsTyped alarmed-IsTyped
      (omega (arith, one_frame)) (omega (arith, one_frame)) (append-nil sent_bytes)

-- The device reports a low battery; between the ticks a byte of noise arrives.
abbrev report : Frame
report = record {
  dst = 255;
  src = 3;
  class = 2;
  op = 1;
  flags = 4;
  seq = 0;
  payload = PowerStatusV1.encode low_power;
}

abbrev started : Agent
started = record alarmed { state = State.new }

abbrev noise : List Turn
noise = received (0 ∷ []) ∷ []

low_power-IsLow : IsLow config.battery (some low_power)
unfolding pack_mv_to_soc_pct cell_soc scan_windows is_on_battery
low_power-IsLow = (refl, refl)

stays_low :
    LowTurns config
      (noise ++ (checked (at_second 40) ∷ []))
      (take_turn config (checked (at_second 8)) (told config report (at_second 7) started)).agent
unfolding take_turn dispatch_next check handle Tick.tick Deframer.new Deframer.feed_slice
    Deframer.feed Deframer.feed_sync1 Deframer.feed_sync2 Deframer.feed_header Deframer.feed_payload
    Deframer.feed_ck_a Deframer.feed_ck_b Deframer.feed_end1 Deframer.feed_end2 fletcher8
    PowerStatusV1.encode PowerStatusV1.decode decode_power on_power_status State.update_power step
    pack_mv_to_soc_pct is_on_battery
stays_low = (tt, ((refl, refl), tt))

low_status-shutdown_example :
    let r =
      run config
        (received (wire report)
          ∷ dispatched (at_second 7)
          ∷ checked (at_second 8)
          ∷ (noise ++ (checked (at_second 40) ∷ [])))
        started in
    (r.agent.waits ≡ true) × Triggered config.shutdown r.shutdown_effects
low_status-shutdown_example =
    low_status-shutdown config report low_power started (inl (unfold Deframer.new in refl)) refl
      (refl, refl) (ground arith) refl (at_second 7) (at_second 8) (at_second 40) noise refl refl
      low_power-IsLow stays_low (omega arith)

-- The agent with no sequence number handed out, and turns with two reports and a frame.
abbrev reporting : List Turn
reporting = measured (at_second 30) readings ∷ turns ++ (measured (at_second 60) readings ∷ [])

run-report_seq_example :
    (f : Frame) × ((take_turn config
        (measured (at_second 90) readings)
        (run config reporting alarmed).agent).effects
      ≡ sent f ∷ [])
    × (f.dst ≡ 2)
    × (f.seq ≡ 2)
run-report_seq_example = run-report_seq config reporting (at_second 90) readings alarmed refl refl
