-- ===== src/Supervisor/Lifecycle.antt =====
-- `main`, and `run_daemon` from its start to its end, with the IPC server around the reconnect
-- loop (src/main.rs).
use web3_pi_ups_service.Prelude.{
  ℕ, ◌≡◌, refl, ap, subst, Bool, true, false, if◌then◌else◌, Bool-cases, inl, inr, Option, none,
  some, List, [], Text, Result, ok, err,
}
use web3_pi_ups_service.Config.{Config, IpcConfig, LoadError, load}
use web3_pi_ups_service.Ipc.Server.{Listening, FileSystem, cleaned, spawn_ipc}
use web3_pi_ups_service.Supervisor.{Task, Event, Phase, exited, panicked, Daemon, start, Run}
use web3_pi_ups_service.Supervisor.Generations.{
  Alive, Accounts, Signalled, Finished, Run-generations,
}

pub data Command : Type 0 where
  status watch : Command

-- The arguments, as the crate `clap` parses them.
pub record Cli : Type 0 where
  pub config : Text
  pub command : Option Command

-- What `main` goes on with: an error, a client of the daemon, or the daemon.
pub data Course : Type 0 where
  bad_config : LoadError → Course
  client : Command → IpcConfig → Course
  bad_logging : Course
  daemon : Config → Course

-- `logging` is whether `logging::init` succeeds.
abbrev pub chosen : Bool → Option Command → Result Config LoadError → Course
chosen logging command (err e) = bad_config e
chosen logging (some c) (ok cfg) = client c cfg.ipc
chosen logging none (ok cfg) = if logging then daemon cfg else bad_logging

unfoldable pub main :
    (Text → Bool) → (Text → Option Text) → (Text → Option Config) → Bool → Cli → Course
unfolding load
main exists read_to_string from_str logging cli =
    chosen logging cli.command (load exists read_to_string from_str cli.config)

-- `if let Some(h) = ipc_handle` and the removal of the socket.
unfoldable pub stop_ipc : FileSystem → Bool → Listening → Listening
stop_ipc fs handle l = cleaned fs (if handle then record l { server = false } else l)

-- What is left: instances of the five tasks, connected clients, the server and its socket.
pub record Remains : Type 0 where
  pub tasks : List Task
  pub clients : ℕ
  pub listening : Listening

-- `run_daemon` fails where no signal handler is installed, returns behind its loop, or panics.
pub data Ending : Type 0 where
  failed returned died : Ending

-- The tasks of connected clients are no part of the handle: aborting it leaves them alone. A panic
-- ends the process with everything but the socket's file.
pub data RunDaemon (fs : FileSystem) (l : Listening) : List Event → Remains → Ending → Type 0 where
  no_handlers :
      (clients : ℕ)
      → RunDaemon fs l []
          (record { tasks = []; clients = clients; listening = (spawn_ipc fs l).0 })
          failed
  ended :
      (clients : ℕ) (es : List Event) (d : Daemon)
      → Run start es d
      → d.phase ≡ exited
      → RunDaemon fs l es
          (record {
            tasks = d.alive;
            clients = clients;
            listening = stop_ipc fs (spawn_ipc fs l).1 (spawn_ipc fs l).0;
          })
          returned
  crashed :
      (es : List Event) (d : Daemon)
      → Run start es d
      → d.phase ≡ panicked
      → RunDaemon fs l es
          (record {
            tasks = d.alive;
            clients = 0;
            listening = record (spawn_ipc fs l).0 { server = false };
          })
          died

-- A server that is stopped, or that was not there, is not there afterwards.
stop-spawn :
    (fs : FileSystem) (l : Listening)
    → l.server ≡ false
    → fs.remove_file ≡ true
    → let stopped = stop_ipc fs (spawn_ipc fs l).1 (spawn_ipc fs l).0 in
      (stopped.server ≡ false) × (stopped.socket ≡ false)
unfolding stop_ipc spawn_ipc
stop-spawn fs l none_there removes = elim (Bool-cases fs.create_dir_all) [
  | inr no_dir ↦ rw (no_dir, removes) (none_there, refl)
  | inl dir ↦ elim (Bool-cases (fs.bind false)) [
    | inl bound ↦ rw (dir, removes, bound) (refl, refl)
    | inr refused ↦ rw (dir, removes, refused) (none_there, refl)
  ]
]

-- A file system where the server starts if no file is at the socket's path.
pub record IsServing (fs : FileSystem) : Type 0 where
  pub creates : fs.create_dir_all ≡ true
  pub removes : fs.remove_file ≡ true
  pub binds : fs.bind false ≡ true

-- The server starts, and its socket is there, whatever an earlier run left.
IsServing-spawn :
    (fs : FileSystem) (l : Listening)
    → IsServing fs
    → spawn_ipc fs l ≡ (record { socket = true; server = true }, true)
unfolding spawn_ipc
IsServing-spawn fs l h = rw (h.creates, h.removes, h.binds) refl

-- What each ending goes back to, and what it leaves behind.
abbrev pub Explains : List Event → Remains → Ending → Type 0
Explains es left failed = (es ≡ []) × (left.listening.socket ≡ true)
Explains es left returned =
    Signalled es
    × (¬ Finished es)
    × (left.listening.server ≡ false)
    × (left.listening.socket ≡ false)
Explains es left died =
    Finished es
    × (¬ Signalled es)
    × (left.clients ≡ 0)
    × (left.listening.server ≡ false)
    × (left.listening.socket ≡ true)

over-Run :
    (es : List Event) (d : Daemon) (phase : Phase)
    → Run start es d
    → d.phase ≡ phase
    → Alive phase d.alive × Accounts phase es
over-Run es d phase run over =
    let (alive, accounts, once) = Run-generations es d run in
    (subst (λ p. Alive p d.alive) over alive, subst (λ p. Accounts p es) over accounts)

-- Where no server was alive at the start, and where the socket's directory is there, files can be
-- removed and the socket bound: however `run_daemon` ends, none of its five tasks is left. It fails
-- before any event, with the socket in place. It returns only on a signal and with no task having
-- ended by itself, and leaves neither server nor socket. It dies only because a task has ended by
-- itself, without a signal, and leaves the socket's file but no server and no client's task. In
-- each case the next start brings the server up again.
pub RunDaemon-Explains :
    (fs : FileSystem) (l : Listening) (es : List Event) (left : Remains) (ending : Ending)
    → l.server ≡ false
    → IsServing fs
    → RunDaemon fs l es left ending
    → (left.tasks ≡ [])
      × Explains es left ending
      × (spawn_ipc fs left.listening ≡ (record { socket = true; server = true }, true))
RunDaemon-Explains fs l es left ending none_there serves (no_handlers clients) =
    (refl, (refl, ap (λ r. r.0.socket) (IsServing-spawn fs l serves)), IsServing-spawn fs _ serves)
RunDaemon-Explains fs l es left ending none_there serves (ended clients es2 d run over) =
    let (none_alive, (signal, unfinished)) = over-Run es2 d exited run over in
    let (no_server, no_socket) = stop-spawn fs l none_there serves.removes in
    (none_alive, (signal, unfinished, no_server, no_socket), IsServing-spawn fs _ serves)
RunDaemon-Explains fs l es left ending none_there serves (crashed es2 d run over) =
    let (none_alive, (task, unsignalled)) = over-Run es2 d panicked run over in
    let stays = ap (λ r. r.0.socket) (IsServing-spawn fs l serves) in
    (none_alive, (task, unsignalled, refl, refl, stays), IsServing-spawn fs _ serves)
