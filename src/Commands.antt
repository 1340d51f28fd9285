-- ===== src/Commands.antt =====
-- Remote commands from the device (src/commands.rs). A handler returns its effects in order.
pub mod Allowed
pub mod Responses
pub mod Typed
use web3_pi_ups_service.Prelude.{
  ℕ, Bool, true, false, not, ◌||◌, if◌then◌else◌, Option, none, some, List, [], ◌∷◌, ◌++◌, Text,
  ascii, text_eq, is_utf8, Result, ok, err,
}
use web3_pi_ups_service.Config.{CommandsConfig, ShutdownConfig}
use web3_pi_ups_service.Proto.Addr
use web3_pi_ups_service.Proto.Flag
use web3_pi_ups_service.Proto.Frame.{Frame}
use web3_pi_ups_service.Proto.Payloads.HostServiceRestartV1
use web3_pi_ups_service.Proto.Payloads.HostServiceRestartV1.{HostServiceRestartV1}
use web3_pi_ups_service.Proto.Payloads.Wire.{PayloadError}
use web3_pi_ups_service.World.{Command, Env, Effect, ran, send}

abbrev pub resp_ok : ℕ
resp_ok = 0

abbrev pub resp_bad_request : ℕ
resp_bad_request = 1

abbrev pub resp_denied : ℕ
resp_denied = 2

abbrev pub resp_systemctl_failed : ℕ
resp_systemctl_failed = 3

-- The whitelist is a `HashSet<String>`, here the list that it is collected from.
pub record CommandsHandler : Type 0 where
  pub commands_cfg : CommandsConfig
  pub shutdown_cfg : ShutdownConfig
  pub whitelist : List Text

abbrev pub new : CommandsConfig → ShutdownConfig → CommandsHandler
new commands_cfg shutdown_cfg = record {
  commands_cfg = commands_cfg;
  shutdown_cfg = shutdown_cfg;
  whitelist = commands_cfg.service_whitelist;
}

unfoldable pub contains : List Text → Text → Bool
contains [] unit = false
contains (w ∷ ws) unit = text_eq w unit || contains ws unit

abbrev pub halt_command : Command
halt_command = record { program = ascii "shutdown"; args = ascii "-h" ∷ ascii "now" ∷ [] }

abbrev pub reboot_command : Command
reboot_command = record { program = ascii "shutdown"; args = ascii "-r" ∷ ascii "now" ∷ [] }

abbrev pub script_command : Text → Command
script_command path = record { program = ascii "sh"; args = path ∷ [] }

abbrev pub systemctl_command : Text → Text → Command
systemctl_command action unit = record {
  program = ascii "systemctl";
  args = action ∷ (unit ++ ascii ".service") ∷ [];
}

unfoldable pub spawn_shutdown_script : Env → Text → List Effect
spawn_shutdown_script env path =
    let script = script_command path in
    if env.exists path
    then ran script ∷ (if env.spawn_ok script then [] else ran halt_command ∷ [])
    else ran halt_command ∷ []

abbrev pub response : Frame → List ℕ → Frame
response req payload = record {
  dst = req.src;
  src = Addr.rpi;
  class = req.class;
  op = req.op;
  flags = Flag.resp;
  seq = req.seq;
  payload = payload;
}

unfoldable pub send_resp : Env → Frame → List Effect
send_resp env req = send env (response req [])

unfoldable pub send_resp_code : Env → Frame → ℕ → List Effect
send_resp_code env req code = send env (response req (code ∷ []))

unfoldable pub handle_host_shutdown : Env → CommandsHandler → Frame → List Effect
unfolding spawn_shutdown_script send_resp
handle_host_shutdown env h req =
    spawn_shutdown_script env h.shutdown_cfg.script_path ++ send_resp env req

unfoldable pub handle_host_reset : Env → CommandsHandler → Frame → List Effect
unfolding send_resp
handle_host_reset env h req = ran reboot_command ∷ send_resp env req

-- The RESP code for what `systemctl` did.
abbrev pub exit_code : Option Bool → ℕ
exit_code (some true) = resp_ok
exit_code (some false) = resp_systemctl_failed
exit_code none = resp_systemctl_failed

-- The part of the handler behind the decoding.
unfoldable pub run_action : Env → CommandsHandler → Frame → Text → Text → List Effect
unfolding send_resp_code
run_action env h req action unit =
    let command = systemctl_command action unit in
    if not h.commands_cfg.allow_service_restart
    then send_resp_code env req resp_denied
    else if not (contains h.whitelist unit)
    then send_resp_code env req resp_denied
    else ran command ∷ send_resp_code env req (exit_code (env.exit_ok command))

unfoldable pub service_action :
    Env → CommandsHandler → Frame → Text → Result HostServiceRestartV1 PayloadError → List Effect
unfolding run_action send_resp_code
service_action env h req action (ok payload) =
    if is_utf8 payload.unit
    then run_action env h req action payload.unit
    else send_resp_code env req resp_bad_request
service_action env h req action (err e) = send_resp_code env req resp_bad_request

unfoldable pub handle_host_service_action : Env → CommandsHandler → Frame → Text → List Effect
unfolding service_action
handle_host_service_action env h req action =
    service_action env h req action (HostServiceRestartV1.decode req.payload)
