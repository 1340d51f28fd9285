-- ===== src/World.antt =====
-- What the agent's tasks see of the world and do to it: the clock, the outbound channel
-- (`mpsc::Sender<OutboundFrame>` of src/transport/serial.rs), files and processes. A task's
-- step takes an `Env` and returns the effects in order.
pub mod Typed
use web3_pi_ups_service.Prelude.{ℕ, ◌-◌, ◌/◌, Bool, if◌then◌else◌, Option, List, [], ◌∷◌, Text}
use web3_pi_ups_service.Proto.Frame.{Frame}

-- A process as it is started: program and arguments.
pub record Command : Type 0 where
  pub program : Text
  pub args : List Text

-- `now` is the monotonic clock in nanoseconds, read once for a step. `channel_open` says whether
-- a send finds its receiver, `exists` whether a path is there, `spawn_ok` whether a program can be
-- started, `exit_ok` whether it ends with status 0 (`none` if it cannot be run at all).
pub record Env : Type 0 where
  pub now : ℕ
  pub channel_open : Bool
  pub exists : Text → Bool
  pub spawn_ok : Command → Bool
  pub exit_ok : Command → Option Bool

pub data Effect : Type 0 where
  sent : Frame → Effect
  ran : Command → Effect

-- `out_tx.send(OutboundFrame { frame }).await`, with the result only logged.
abbrev pub send : Env → Frame → List Effect
send env frame = if env.channel_open then sent frame ∷ [] else []

-- `start.elapsed().as_secs()`; `Instant::elapsed` saturates at zero.
abbrev pub elapsed_secs : Env → ℕ → ℕ
elapsed_secs env start = (env.now - start) / 1_000_000_000
