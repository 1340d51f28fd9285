-- ===== src/Lib.antt =====
-- Verification of the Web3 Pi UPS service: the agent that runs on the Raspberry Pi, talks to the UPS
-- over a serial port, shuts the host down on a low battery, and carries out remote commands.
-- Paths are from the repository's root.
--
-- The parts and how they interact:
--   Bytes from the serial port go through the deframer (src/proto/deframer.rs) in the reader task
--   (src/transport/serial.rs), which passes frames to the dispatcher (src/dispatcher.rs). The
--   dispatcher decodes payloads (src/proto/payloads.rs), stores telemetry in the shared state
--   (src/state.rs) and calls the command handlers (src/commands.rs). The shutdown state machine
--   (src/shutdown_sm.rs) reads the state once a second, the host metrics task
--   (src/host_metrics/) writes to it and sends, and the IPC server (src/ipc.rs) reads it. What the
--   tasks send is encoded by the writer task. Ports are found by src/transport/detect.rs.
--
-- Which file models which part:
--   Proto, Proto/Addr, Proto/Class, Proto/Flag, Proto/Cap, Proto/Op/*: the constants of
--   src/proto/mod.rs.
--   Proto/Fletcher: `fletcher8`. Proto/Frame: `Frame::encode_into`, `encode` and `decode`; its
--   children give the wire form in closed form, and the round trips and errors.
--   Proto/Deframer: `Deframer::feed`, one function for each state, and `feed_slice`; its children
--   hold the invariant on the buffer and what follows for whole streams.
--   Proto/Payloads/*: one module for each payload, `encode` and `decode` as in the source, and for each
--   group of codes. Proto/Payloads/Codec is the interface that a payload with both fills, with its
--   laws; Proto/Payloads/Kinds puts all of them together as one family.
--   Soc: the table and the interpolation. Config: the records and the defaults.
--   World: what a task's step sees of its surroundings (`Env`) and does to them (`Effect`).
--   State: `AgentState`, `TxSeq` and the methods of `State`, as functions from state to state.
--   ShutdownSm: `step` and what it calls; Countdown, Liveness and Loop are about runs in which the
--   other tasks write to the state at any time. Commands: the handlers, with the processes they
--   start and the frames they send in order. Dispatcher: `handle` and its loop.
--   Dispatcher/Replies gives what it answers in closed form.
--   HostMetrics/Cpu, Mem, Network, Disk, Uptime, Eth: the readers, with the parsers of the
--   files under /proc; modules named Printed hold the files as the kernel prints them.
--   HostMetrics/Tick: the metrics task; HostMetrics/Files: what a tick reads on a machine, and
--   what it reports where the files are as printed. Ipc: snapshots and the loop of a client;
--   Ipc/Server: the start of the server and its accept loop. Transport/Serial: reader and
--   writer over lists of reads and frames; its child Conversation puts both directions of the
--   line together with the dispatcher. Transport/Detect: the choice of the port. Supervisor:
--   the reconnect loop of `run_daemon` in src/main.rs, as a step relation over events. A task
--   that ends by itself leads to a panic there, since its `JoinHandle` is polled again, and so
--   to the end of the process. Supervisor/Lifecycle: `main`, and `run_daemon` with the IPC
--   server around the loop. Agent: the tasks together, taking turns on the shared state in any
--   order, with the channel between reader and dispatcher; Agent/Shutdown follows a power
--   status from the wire to the shutdown of the host, Agent/Numbered the reports' numbers, and Agent/Delivered what is sent to the
--   other end of the line. Modules named Typed say that numbers stay in the ranges of the
--   source's types. Cli: the client of src/cli.rs; Clock is `days_to_ymd`, with the Gregorian
--   calendar beside it, Format and Print are what is printed, Session the conversation with the
--   daemon, and Session/Watch a subscription from the daemon's socket to the terminal.
--   Examples: concrete inputs, and the theorems at them. UnitTests: the tests of the repository
--   as statements about the definitions, each proved by computation.
--   Prelude: the names that all modules share, lists over native numbers, text as bytes, and the
--   functions on text of Rust's standard library: Strings (`trim`), Split (`lines`,
--   `split_whitespace`, `strip_prefix`, `find`), Decimal (`{}` and `parse` of integers).
--
-- How the code corresponds:
--   Integers are native numbers with the wrap-around of their width written out; signed fields are
--   integers of Prelude/Int with the two's complement codes. A byte buffer is a list of numbers.
--   A method under the state's lock is one step. `Instant`s are numbers of nanoseconds, read once in
--   a step. Logging is left out. Loops over received data are recursion on the list of what
--   arrives; a run over a list that ends is a task that still waits. There are two fuels: that of
--   `trim` is the length of the text, since each round but the last drops a byte, and that of the
--   printing of numbers is 20 digits, as many as the greatest `u64` has.
--
-- Not modelled: src/logging.rs, which only calls crates; the creation of threads and tasks and the
-- wait for a signal in src/transport/serial.rs and src/main.rs; unit tests on floating-point
-- numbers. TOML, JSON, arguments, serial ports, sockets and channels are crates: what they yield
-- is an argument. So are the contents of files, `statvfs`, the output of `systemctl`, and
-- floating-point numbers: parsing and rounding them in src/host_metrics, and printing quotients of
-- them in src/cli.rs.
pub mod Prelude
pub mod Proto
pub mod Soc
pub mod Config
pub mod World
pub mod HostMetrics
pub mod State
pub mod ShutdownSm
pub mod Commands
pub mod Dispatcher
pub mod Transport
pub mod Ipc
pub mod Supervisor
pub mod Cli
pub mod Agent
pub mod Examples
pub mod UnitTests
