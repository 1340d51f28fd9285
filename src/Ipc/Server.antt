-- ===== src/Ipc/Server.antt =====
-- The start of the IPC server and its accept loop (src/ipc.rs).
use web3_pi_ups_service.Prelude.{
  Bool, true, false, not, if◌then◌else◌, List, [], ◌∷◌, ◌++◌, take, Option, none, some, ℕ, Text,
}
use web3_pi_ups_service.Ipc.{OnBattCfg, Clock, Wake, Reply, handle_client}
use web3_pi_ups_service.State.{State}

-- Whether the socket's file is there, and whether an accept loop of the process is alive.
pub record Listening : Type 0 where
  pub socket : Bool
  pub server : Bool

-- What the file system does: whether the directory is there or is created, whether a file is
-- removed, and whether the socket is bound where a file is there and where none is.
pub record FileSystem : Type 0 where
  pub create_dir_all : Bool
  pub remove_file : Bool
  pub bind : Bool → Bool

-- `let _ = remove_file(&socket_path).await`
abbrev pub cleaned : FileSystem → Listening → Listening
cleaned fs l = if fs.remove_file then record l { socket = false } else l

-- The state, and whether there is a handle.
unfoldable pub spawn_ipc : FileSystem → Listening → Listening × Bool
spawn_ipc fs l =
    let clean = cleaned fs l in
    if not fs.create_dir_all
    then (l, false)
    else if fs.bind clean.socket
    then (record { socket = true; server = true }, true)
    else (clean, false)

-- What the accept loop meets: a client with what wakes its loop, or an error, after which it waits.
pub data Accepted : Type 0 where
  client : List (Wake × Clock × State) → Accepted
  accept_failed : Accepted

-- The loop spawns a task for each client; their replies, client by client.
unfoldable pub accept_loop : Text → OnBattCfg → List Accepted → List (List Reply)
unfolding handle_client
accept_loop version cfg [] = []
accept_loop version cfg (client wakes ∷ rest) =
    handle_client version cfg wakes false ∷ accept_loop version cfg rest
accept_loop version cfg (accept_failed ∷ rest) = accept_loop version cfg rest

-- `write_all`: all the bytes, or an error behind the first of them.
abbrev pub write_all : Option ℕ → Text → Text × Bool
write_all none bytes = (bytes, true)
write_all (some n) bytes = (take n bytes, false)

-- What reaches the socket of a line and its end.
abbrev pub write_line : Option ℕ → Option ℕ → Text → Text
write_line first second line =
    let (bytes, wrote) = write_all first line in
    if wrote then bytes ++ (write_all second (10 ∷ [])).0 else bytes

-- `serde_json::to_string` is a parameter, and how the two writes end.
unfoldable pub send_reply : (Reply → Option Text) → Option ℕ → Option ℕ → Reply → Text
send_reply to_string first second reply = elim (to_string reply) [
  | none ↦ []
  | some line ↦ write_line first second line
]
