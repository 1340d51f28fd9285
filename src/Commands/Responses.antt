-- ===== src/Commands/Responses.antt =====
-- What a service request is answered (src/commands.rs).
use web3_pi_ups_service.Prelude.{
  ℕ, ◌≡◌, true, if◌then◌else◌, Option, none, some, List, [], ◌∷◌, ◌++◌, Text, is_utf8, Result, ok,
  err, arith,
}
use web3_pi_ups_service.Proto.Frame.{Frame}
use web3_pi_ups_service.Proto.Payloads.HostServiceRestartV1
use web3_pi_ups_service.Proto.Payloads.HostServiceRestartV1.{HostServiceRestartV1}
use web3_pi_ups_service.Proto.Payloads.Wire.{PayloadError}
use web3_pi_ups_service.World.{Env, Effect, sent, ran}
use web3_pi_ups_service.Commands.{
  CommandsHandler, contains, systemctl_command, response, resp_bad_request, resp_denied, exit_code,
  send_resp_code, run_action, service_action, handle_host_service_action,
}

-- The unit that a request may act on: well-formed, listed, and with the kill switch on.
abbrev pub permitted : CommandsHandler → Result HostServiceRestartV1 PayloadError → Option Text
permitted h (err e) = none
permitted h (ok p) =
    if is_utf8 p.unit
    then if h.commands_cfg.allow_service_restart
      then (if contains h.whitelist p.unit then some p.unit else none)
      else none
    else none

-- The result code, for a unit that may be acted on and for none.
abbrev pub code_for : Env → Text → Result HostServiceRestartV1 PayloadError → Option Text → ℕ
code_for env action r (some unit) = exit_code (env.exit_ok (systemctl_command action unit))
code_for env action (err e) none = resp_bad_request
code_for env action (ok p) none = if is_utf8 p.unit then resp_denied else resp_bad_request

abbrev pub command_for : Text → Option Text → List Effect
command_for action (some unit) = ran (systemctl_command action unit) ∷ []
command_for action none = []

service_action-answer :
    (env : Env) (h : CommandsHandler) (req : Frame) (action : Text)
    (r : Result HostServiceRestartV1 PayloadError)
    → env.channel_open ≡ true
    → service_action env h req action r
      ≡ command_for action (permitted h r)
        ++ (sent (response req (code_for env action r (permitted h r) ∷ [])) ∷ [])
unfolding service_action run_action send_resp_code
service_action-answer env h req action (err e) o = rw o
service_action-answer env h req action (ok p) o = ground arith

-- While the outbound channel is open, a service request runs `systemctl` with its action exactly
-- where its payload decodes to a UTF-8 unit name of the whitelist with the kill switch on, and
-- then sends one response frame, last: with the code of that call (0, or 3 where it failed),
-- with 2 for a denied unit, or with 1 for a payload that does not decode or is not UTF-8.
pub handle_host_service_action-answer :
    (env : Env) (h : CommandsHandler) (req : Frame) (action : Text)
    → env.channel_open ≡ true
    → let r = HostServiceRestartV1.decode req.payload in
      let unit = permitted h r in
      handle_host_service_action env h req action
      ≡ command_for action unit ++ (sent (response req (code_for env action r unit ∷ [])) ∷ [])
unfolding handle_host_service_action
handle_host_service_action-answer env h req action o =
    service_action-answer env h req action (HostServiceRestartV1.decode req.payload) o
