-- ===== src/Supervisor.antt =====
-- The supervisor of the agent's tasks (src/main.rs, `run_daemon`). What it waits for arrives as a
-- list of events: the port's resolution, the opening of the port, the end of a task, a signal, the
-- end of the back-off.
pub mod Generations
pub mod Lifecycle
use web3_pi_ups_service.Prelude.{
  ℕ, ◌≡◌, Bool, true, false, ◌==◌, if◌then◌else◌, Option, none, some, List, [], ◌∷◌, ◌++◌, Text,
  Result, ok, err,
}
use web3_pi_ups_service.Prelude.Chain.{◌>>=◌}
use web3_pi_ups_service.Transport.Detect.{PortError}

pub data Task : Type 0 where
  reader writer dispatcher sm metrics : Task

pub data Phase : Type 0 where
  resolving : Phase
  opening : Text → Phase
  supervising : Phase
  backing_off : Phase
  exited : Phase
  panicked : Phase

pub data Event : Type 0 where
  resolved : Result Text PortError → Event
  opened : Bool → Event
  finished : Task → Event
  signalled : Event
  slept : Event

-- Where the loop stands, and the instances of tasks that are alive.
pub record Daemon : Type 0 where
  pub phase : Phase
  pub alive : List Task

abbrev task_number : Task → ℕ
task_number reader = 0
task_number writer = 1
task_number dispatcher = 2
task_number sm = 3
task_number metrics = 4

abbrev pub is_task : Task → Task → Bool
is_task a b = task_number a == task_number b

-- `abort()` and `await` of a handle: the instance that it holds is gone. An instance whose handle
-- is lost would stay behind.
abbrev pub abort : Task → List Task → List Task
abort t [] = []
abort t (a ∷ alive) = let rest = abort t alive in if is_task t a then alive else a ∷ rest

-- `handle.await` behind `handle.abort()`. `select!` has polled the handle of a task that ended by
-- itself to its end; to poll such a `JoinHandle` again is a panic, here `none`.
unfoldable pub await_handle : Option Task → Task → List Task → Option (List Task)
await_handle none t alive = some (abort t alive)
await_handle (some done) t alive = if is_task done t then none else some (abort t alive)

-- The awaits behind `select!`, where `done` is the task whose end it found.
unfoldable pub abort_all : Option Task → List Task → Option (List Task)
unfolding await_handle
abort_all done alive = do
  no_reader ← await_handle done reader alive
  no_writer ← await_handle done writer no_reader
  no_dispatcher ← await_handle done dispatcher no_writer
  no_sm ← await_handle done sm no_dispatcher
  await_handle done metrics no_sm

-- `spawn_serial_tasks` spawns the first two.
unfoldable pub spawn_all : List Task → List Task
spawn_all alive = reader ∷ writer ∷ dispatcher ∷ sm ∷ metrics ∷ alive

abbrev pub back_off : List Task → Option Daemon
back_off alive = some (record { phase = backing_off; alive = alive })

-- The loop goes on to a phase where all tasks have been awaited. A panic ends the process, and
-- with it every task: the release profile has `panic = "abort"`.
abbrev pub go_on : Phase → Option (List Task) → Option Daemon
go_on phase none = some (record { phase = panicked; alive = [] })
go_on phase (some alive) = some (record { phase = phase; alive = alive })

-- One step of the loop `'reconnect`; `none` for an event that the loop does not wait for. While
-- a port is resolved or opened a signal is not looked at; it stays pending.
unfoldable pub supervise : Event → Phase → List Task → Option Daemon
unfolding abort_all spawn_all
supervise (resolved (ok path)) resolving alive =
    some (record { phase = opening path; alive = alive })
supervise (resolved (err e)) resolving alive = back_off alive
supervise (opened true) (opening path) alive =
    some (record { phase = supervising; alive = spawn_all alive })
supervise (opened false) (opening path) alive = back_off alive
supervise (finished t) supervising alive = go_on backing_off (abort_all (some t) (abort t alive))
supervise signalled supervising alive = go_on exited (abort_all none alive)
supervise slept backing_off alive = some (record { phase = resolving; alive = alive })
supervise signalled backing_off alive = some (record { phase = exited; alive = alive })
supervise event phase alive = none

-- `run_daemon` before its first round.
abbrev pub start : Daemon
start = record { phase = resolving; alive = [] }

-- A run of `run_daemon` over the events that it meets.
pub data Run : Daemon → List Event → Daemon → Type 0 where
  at_rest : {d : Daemon} → Run d [] d
  goes_on :
      {d next end : Daemon} (e : Event) {es : List Event}
      → supervise e d.phase d.alive ≡ some next
      → Run next es end
      → Run d (e ∷ es) end
