-- ===== src/Dispatcher.antt =====
-- The frame dispatcher (src/dispatcher.rs): the state after a frame, and the effects in order.
-- Branches that only log change nothing.
pub mod Stores
pub mod Isolation
pub mod Replies
pub mod Typed
use web3_pi_ups_service.Prelude.{
  ℕ, Bool, not, ◌&&◌, ◌==◌, if◌then◌else◌, bit_and, List, [], ◌∷◌, ◌++◌, Text, ascii, Result, ok,
  err,
}
use web3_pi_ups_service.Commands.{
  CommandsHandler, handle_host_shutdown, handle_host_reset, handle_host_service_action,
}
use web3_pi_ups_service.Proto.Class
use web3_pi_ups_service.Proto.Flag
use web3_pi_ups_service.Proto.Op
use web3_pi_ups_service.Proto.Frame.{Frame}
use web3_pi_ups_service.Proto.Payloads.NetStatusV1
use web3_pi_ups_service.Proto.Payloads.NetStatusV1.{NetStatusV1}
use web3_pi_ups_service.Proto.Payloads.PowerEventV1
use web3_pi_ups_service.Proto.Payloads.PowerEventV1.{PowerEventV1}
use web3_pi_ups_service.Proto.Payloads.PowerStatusV1
use web3_pi_ups_service.Proto.Payloads.PowerStatusV1.{PowerStatusV1}
use web3_pi_ups_service.Proto.Payloads.PowerStatusV2
use web3_pi_ups_service.Proto.Payloads.PowerStatusV2.{PowerStatusV2}
use web3_pi_ups_service.Proto.Payloads.SysHelloV1
use web3_pi_ups_service.Proto.Payloads.SysHelloV1.{SysHelloV1}
use web3_pi_ups_service.Proto.Payloads.Wire.{PayloadError}
use web3_pi_ups_service.State.{State, update_power, update_power_event, update_net, record_hello}
use web3_pi_ups_service.World.{Env, Effect}

abbrev pub Handled : Type 0
Handled = State × List Effect

unfoldable pub on_hello : ℕ → Result SysHelloV1 PayloadError → State → State
on_hello src (ok h) s = record_hello src h s
on_hello src (err e) s = s

-- `map(|p2| p2.to_v1())`
abbrev pub reduced : Result PowerStatusV2 PayloadError → Result PowerStatusV1 PayloadError
reduced (ok p) = ok (PowerStatusV2.to_v1 p)
reduced (err e) = err e

-- The decoder is chosen by the version byte, if there is one.
unfoldable pub decode_power : List ℕ → Result PowerStatusV1 PayloadError
decode_power [] = PowerStatusV1.decode []
decode_power (v ∷ rest) =
    if v == 2 then reduced (PowerStatusV2.decode (v ∷ rest)) else PowerStatusV1.decode (v ∷ rest)

unfoldable pub on_power_status : ℕ → Result PowerStatusV1 PayloadError → State → State
on_power_status now (ok p) s = update_power now p s
on_power_status now (err e) s = s

unfoldable pub on_power_event : ℕ → Result PowerEventV1 PayloadError → State → State
on_power_event now (ok e) s = update_power_event now e.event s
on_power_event now (err e) s = s

unfoldable pub on_net_status : ℕ → Result NetStatusV1 PayloadError → State → State
on_net_status now (ok n) s = update_net now n s
on_net_status now (err e) s = s

abbrev pub is_op : Frame → ℕ → ℕ → Bool
is_op frame class op = frame.class == class && frame.op == op

abbrev pub has_flag : Frame → ℕ → Bool
has_flag frame flag = not (bit_and frame.flags flag == 0)

-- The arms of the class `HOST`. `host.event` frames are only logged.
unfoldable pub handle_host : Env → CommandsHandler → Frame → State → Handled
handle_host env commands frame s =
    if is_op frame Class.host Op.Host.shutdown && has_flag frame Flag.req
    then (s, handle_host_shutdown env commands frame)
    else if is_op frame Class.host Op.Host.reset && has_flag frame Flag.req
    then (s, handle_host_reset env commands frame)
    else if is_op frame Class.host Op.Host.service_restart && has_flag frame Flag.req
    then (s, handle_host_service_action env commands frame (ascii "restart"))
    else if is_op frame Class.host Op.Host.service_start && has_flag frame Flag.req
    then (s, handle_host_service_action env commands frame (ascii "start"))
    else if is_op frame Class.host Op.Host.service_stop && has_flag frame Flag.req
    then (s, handle_host_service_action env commands frame (ascii "stop"))
    else (s, [])

-- `system.log`, `system.ping`, `net.downlink`, `net.time_sync` and unknown frames are only
-- logged, so they fall through to the last arm.
unfoldable pub handle : Env → CommandsHandler → Frame → State → Handled
unfolding handle_host
handle env commands frame s =
    if is_op frame Class.system Op.System.hello
    then (on_hello frame.src (SysHelloV1.decode frame.payload) s, [])
    else if is_op frame Class.power Op.Power.status
    then (on_power_status env.now (decode_power frame.payload) s, [])
    else if is_op frame Class.power Op.Power.event
    then (on_power_event env.now (PowerEventV1.decode frame.payload) s, [])
    else if is_op frame Class.net Op.Net.status
    then (on_net_status env.now (NetStatusV1.decode frame.payload) s, [])
    else handle_host env commands frame s

-- The loop over the frames of the inbound channel, each with the world that its step meets.
unfoldable pub dispatch_loop : CommandsHandler → List (Env × Frame) → State → Handled
dispatch_loop commands [] s = (s, [])
dispatch_loop commands ((env, frame) ∷ inbound) s =
    let first = handle env commands frame s in
    let rest = dispatch_loop commands inbound first.0 in (rest.0, first.1 ++ rest.1)
