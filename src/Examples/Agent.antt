-- ===== src/Examples/Agent.antt =====
-- The theorems on host metrics, snapshots, the shutdown task and port detection at work.
use web3_pi_ups_service.Prelude.{
  ℕ, ◌≤◌, ◌-◌, ◌*◌, ◌/◌, ◌≡◌, ◌↔◌, refl, not, true, false, Option, none, some, List, [], ◌∷◌, Text,
  ascii, ok, err, arith,
}
use web3_pi_ups_service.Config
use web3_pi_ups_service.Examples.{battery, shutdown, at_second, low_power, state_with}
use web3_pi_ups_service.HostMetrics.Cpu.{
  CpuSnap, busy, ticks, compute_usage_pct, compute_usage_pct-busy,
}
use web3_pi_ups_service.HostMetrics.Eth.{
  unpack, unit_state, read_packed_state, unpack-read_packed_state,
}
use web3_pi_ups_service.Ipc.{build_snapshot}
use web3_pi_ups_service.Ipc.Alert.{cfg_of, ShowsDue, step-build_snapshot}
use web3_pi_ups_service.ShutdownSm.{step}
use web3_pi_ups_service.State.{snapshot}
use web3_pi_ups_service.Supervisor.{
  Event, resolved, opened, finished, slept, sm, panicked, await_handle, abort_all, spawn_all,
  supervise, Daemon, start, Run, at_rest, goes_on,
}
use web3_pi_ups_service.Ipc.Server.{Listening, FileSystem, spawn_ipc}
use web3_pi_ups_service.Supervisor.Lifecycle.{Remains, died, crashed, Explains, RunDaemon-Explains}
use web3_pi_ups_service.Supervisor.Generations.{Alive, Accounts, spawned, Run-generations}
use web3_pi_ups_service.Transport.Detect.{
  no_device, Entry, detect_ups_port, or_else, last_such, first_such, is_ups, is_pico, is_acm,
  detect_ups_port-priority,
}

abbrev snap_at : ℕ → ℕ → CpuSnap
snap_at user idle = record {
  user = user;
  nice = 5;
  system = 50;
  idle = idle;
  iowait = 30;
  irq = 0;
  softirq = 2;
}

compute_usage_pct-busy_example :
    compute_usage_pct (snap_at 100 1000) (snap_at 130 1090)
    ≡ some (
        (busy (snap_at 130 1090) - busy (snap_at 100 1000))
        * 100
        / (ticks (snap_at 130 1090) - ticks (snap_at 100 1000)))
compute_usage_pct-busy_example =
    compute_usage_pct-busy (snap_at 100 1000) (snap_at 130 1090) (omega arith) (omega arith)
      (omega arith) (omega arith)

-- Every unit is active.
abbrev all_active : Text → Option Text
all_active unit = some (ascii "active\n")

unpack-read_packed_state_example :
    unpack (read_packed_state all_active Config.default_eth_clients) ≡ (
      unit_state all_active (ascii "geth"),
      unit_state all_active (ascii "nimbus-beacon-node"),
      unit_state all_active (ascii "nimbus-validator"),
    )
unpack-read_packed_state_example = unpack-read_packed_state all_active Config.default_eth_clients

step-build_snapshot_example :
    ((step (at_second 40) battery shutdown (state_with low_power (some 0))).initiated ≡ true)
    ↔ ShowsDue battery shutdown (
        build_snapshot
          (record { now = (at_second 40).now; unix_ms = some 1_700_000_000_000 })
          (snapshot (state_with low_power (some 0)))
          (cfg_of battery))
step-build_snapshot_example =
    step-build_snapshot (at_second 40) battery shutdown (state_with low_power (some 0))
      (some 1_700_000_000_000)

abbrev devices : List Entry
devices =
    record { name = ascii "tty0"; product = none }
    ∷ record { name = ascii "ttyACM0"; product = some (ascii "Pico\n") }
    ∷ record { name = ascii "ttyACM1"; product = some (ascii "Web3_Pi_UPS\n") }
    ∷ []

detect_ups_port-priority_example :
    detect_ups_port (some devices)
    ≡ or_else
        (last_such is_ups devices)
        (or_else (first_such is_pico devices) (first_such is_acm devices))
detect_ups_port-priority_example = detect_ups_port-priority devices

-- The device is gone when the port is resolved first, and then the shutdown task ends by itself.
abbrev events : List Event
events =
    resolved (err no_device)
    ∷ slept
    ∷ resolved (ok (ascii "/dev/ttyACM0"))
    ∷ opened true
    ∷ finished sm
    ∷ []

abbrev dead : Daemon
dead = record { phase = panicked; alive = [] }

dead-Run : Run start events dead
unfolding supervise abort_all await_handle spawn_all
dead-Run = goes_on (resolved (err no_device)) refl (
    goes_on slept refl (
      goes_on (resolved (ok (ascii "/dev/ttyACM0"))) refl
        (goes_on (opened true) refl (goes_on (finished sm) refl at_rest))))

Run-generations_example : Alive panicked [] × Accounts panicked events × (spawned events ≤ 1)
Run-generations_example = Run-generations events dead dead-Run

-- A file system that works, with a socket of an earlier run.
abbrev files : FileSystem
files = record { create_dir_all = true; remove_file = true; bind = not }

abbrev stale : Listening
stale = record { socket = true; server = false }

abbrev remains : Remains
remains = record {
  tasks = [];
  clients = 0;
  listening = record (spawn_ipc files stale).0 { server = false };
}

RunDaemon-Explains_example :
    (remains.tasks ≡ [])
    × Explains events remains died
    × (spawn_ipc files remains.listening ≡ (record { socket = true; server = true }, true))
RunDaemon-Explains_example =
    RunDaemon-Explains files stale events remains died refl
      (record { creates = refl; removes = refl; binds = refl }) (crashed events dead dead-Run refl)
