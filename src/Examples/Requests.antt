-- ===== src/Examples/Requests.antt =====
-- The theorems on requests, telemetry and payloads at work.
use web3_pi_ups_service.Prelude.{◌≡◌, refl, [], ◌∷◌, ◌++◌, ascii}
use web3_pi_ups_service.Examples.{handler, at_second, ping}
use web3_pi_ups_service.Commands.{response, handle_host_service_action}
use web3_pi_ups_service.Commands.Responses.{
  permitted, code_for, command_for, handle_host_service_action-answer,
}
use web3_pi_ups_service.Dispatcher.{handle}
use web3_pi_ups_service.Dispatcher.Isolation.{handle-any_dst}
use web3_pi_ups_service.Proto.Frame.{Frame}
use web3_pi_ups_service.Proto.Payloads.HostServiceRestartV1
use web3_pi_ups_service.State
use web3_pi_ups_service.State.{update_power}
use web3_pi_ups_service.World.{sent}

-- A request to restart `geth`.
abbrev restart_geth : Frame
restart_geth = record ping { class = 4; op = 4; payload = 1 ∷ 4 ∷ 0 ∷ 0 ∷ ascii "geth" }

handle_host_service_action-answer_example :
    let r = HostServiceRestartV1.decode restart_geth.payload in
    let unit = permitted handler r in
    handle_host_service_action (at_second 1) handler restart_geth (ascii "restart")
    ≡ command_for (ascii "restart") unit
      ++ (sent (response restart_geth (code_for (at_second 1) (ascii "restart") r unit ∷ [])) ∷ [])
handle_host_service_action-answer_example =
    handle_host_service_action-answer (at_second 1) handler restart_geth (ascii "restart") refl

handle-any_dst_example :
    handle (at_second 1) handler (record restart_geth { dst = 0 }) State.new
    ≡ handle (at_second 1) handler restart_geth State.new
handle-any_dst_example = handle-any_dst (at_second 1) handler restart_geth State.new 0
