-- ===== src/Dispatcher/Replies.antt =====
-- What the dispatcher answers to a frame (src/dispatcher.rs, src/commands.rs).
use web3_pi_ups_service.Prelude.{
  ℕ, ◌≡◌, refl, ap, ◌∙◌, true, false, ◌&&◌, ◌||◌, ◌==◌, if◌then◌else◌, Bool-cases, inl, inr, Option,
  none, some, List, [], ◌∷◌, ◌++◌, All, Text, ascii, arith,
}
use web3_pi_ups_service.Commands.{
  CommandsHandler, response, spawn_shutdown_script, send_resp, handle_host_shutdown,
  handle_host_reset, handle_host_service_action,
}
use web3_pi_ups_service.Commands.Responses.{
  permitted, code_for, command_for, handle_host_service_action-answer,
}
use web3_pi_ups_service.Dispatcher.{has_flag, handle_host, handle, dispatch_loop}
use web3_pi_ups_service.Proto.Addr
use web3_pi_ups_service.Proto.Class
use web3_pi_ups_service.Proto.Flag
use web3_pi_ups_service.Proto.Op
use web3_pi_ups_service.Proto.Frame.{Frame}
use web3_pi_ups_service.Proto.Payloads.HostServiceRestartV1
use web3_pi_ups_service.State.{State}
use web3_pi_ups_service.World.{Env, Effect, sent, ran}

-- The frames among the effects.
abbrev pub sent_frames : List Effect → List Frame
sent_frames [] = []
sent_frames (sent f ∷ es) = f ∷ sent_frames es
sent_frames (ran c ∷ es) = sent_frames es

-- The `systemctl` action of an op code.
abbrev pub action_of : ℕ → Option Text
action_of op =
    if op == Op.Host.service_restart
    then some (ascii "restart")
    else if op == Op.Host.service_start
    then some (ascii "start")
    else if op == Op.Host.service_stop
    then some (ascii "stop")
    else none

-- The result code of a service request.
abbrev pub result_code : Env → CommandsHandler → Frame → Text → ℕ
result_code env h f action =
    let r = HostServiceRestartV1.decode f.payload in code_for env action r (permitted h r)

-- A response to a frame: back to its sender, with its class, op code and sequence number.
abbrev pub answer : Frame → List ℕ → Frame
answer f payload = record {
  dst = f.src;
  src = Addr.rpi;
  class = f.class;
  op = f.op;
  flags = Flag.resp;
  seq = f.seq;
  payload = payload;
}

abbrev pub service_reply : Env → CommandsHandler → Frame → Option Text → List Frame
service_reply env h f none = []
service_reply env h f (some action) = answer f (result_code env h f action ∷ []) ∷ []

-- The answer to a frame: none but to requests of the class `HOST`; an empty one to shutdown and
-- reset, and one with a result code to the service requests.
abbrev pub reply : Env → CommandsHandler → Frame → List Frame
reply env h f =
    if f.class == Class.host && has_flag f Flag.req
    then (if f.op == Op.Host.shutdown || f.op == Op.Host.reset
        then answer f [] ∷ []
        else service_reply env h f (action_of f.op))
    else []

abbrev pub replies : CommandsHandler → List (Env × Frame) → List Frame
replies h [] = []
replies h ((env, f) ∷ inbound) = reply env h f ++ replies h inbound

sent_frames-append :
    (xs ys : List Effect) → sent_frames (xs ++ ys) ≡ sent_frames xs ++ sent_frames ys
sent_frames-append [] ys = refl
sent_frames-append (sent f ∷ xs) ys = ap (λ t. f ∷ t) (sent_frames-append xs ys)
sent_frames-append (ran c ∷ xs) ys = sent_frames-append xs ys

spawn_shutdown_script-silent :
    (env : Env) (path : Text) → sent_frames (spawn_shutdown_script env path) ≡ []
unfolding spawn_shutdown_script
spawn_shutdown_script-silent env path = ground arith

handle_host_shutdown-sent :
    (env : Env) (h : CommandsHandler) (f : Frame)
    → env.channel_open ≡ true
    → sent_frames (handle_host_shutdown env h f) ≡ response f [] ∷ []
unfolding handle_host_shutdown send_resp
handle_host_shutdown-sent env h f o =
    sent_frames-append (spawn_shutdown_script env h.shutdown_cfg.script_path) _
    ∙ (rw (spawn_shutdown_script-silent env h.shutdown_cfg.script_path, o) refl)

handle_host_reset-sent :
    (env : Env) (h : CommandsHandler) (f : Frame)
    → env.channel_open ≡ true
    → sent_frames (handle_host_reset env h f) ≡ response f [] ∷ []
unfolding handle_host_reset send_resp
handle_host_reset-sent env h f o = rw o refl

command_for-silent :
    (action : Text) (unit : Option Text) (es : List Effect)
    → sent_frames (command_for action unit ++ es) ≡ sent_frames es
command_for-silent action none es = refl
command_for-silent action (some unit) es = refl

service_action-sent :
    (env : Env) (h : CommandsHandler) (f : Frame) (action : Text)
    → env.channel_open ≡ true
    → sent_frames (handle_host_service_action env h f action)
      ≡ response f (result_code env h f action ∷ []) ∷ []
service_action-sent env h f action o =
    ap sent_frames (handle_host_service_action-answer env h f action o)
    ∙ command_for-silent action (permitted h (HostServiceRestartV1.decode f.payload)) _

-- The arms of the class `HOST`.
handle_host-sent :
    (env : Env) (h : CommandsHandler) (f : Frame) (s : State)
    → env.channel_open ≡ true
    → sent_frames (handle_host env h f s).1 ≡ reply env h f
unfolding handle_host
handle_host-sent env h f s o = elim (Bool-cases (f.class == Class.host)) [
  | inr other ↦ rw other refl
  | inl host ↦ elim (Bool-cases (has_flag f Flag.req)) [
    | inr event ↦ rw (host, event) (ground arith)
    | inl req ↦
        rw (host, req)
          (ground (
            arith,
            handle_host_shutdown-sent env h f o,
            handle_host_reset-sent env h f o,
            service_action-sent env h f (ascii "restart") o,
            service_action-sent env h f (ascii "start") o,
            service_action-sent env h f (ascii "stop") o,
          ))
  ]
]

handle-sent :
    (env : Env) (h : CommandsHandler) (f : Frame) (s : State)
    → env.channel_open ≡ true
    → sent_frames (handle env h f s).1 ≡ reply env h f
unfolding handle
handle-sent env h f s o = elim (Bool-cases (f.class == Class.host)) [
  | inl host ↦
      let other_system : (f.class == Class.system) ≡ false = ground arith in
      let other_power : (f.class == Class.power) ≡ false = ground arith in
      let other_net : (f.class == Class.net) ≡ false = ground arith in
      rw (other_system, other_power, other_net) (handle_host-sent env h f s o)
  | inr other ↦ ground (arith, handle_host-sent env h f s o, other)
]

-- While the outbound channel is open, the dispatcher sends exactly the answers to the frames it
-- gets, one after the other, in their order, whatever its state is.
pub dispatch_loop-replies :
    (h : CommandsHandler) (inbound : List (Env × Frame)) (s : State)
    → All (λ item. item.0.channel_open ≡ true) inbound
    → sent_frames (dispatch_loop h inbound s).1 ≡ replies h inbound
unfolding dispatch_loop
dispatch_loop-replies h [] s o = refl
dispatch_loop-replies h ((env, f) ∷ inbound) s (is_open, o) =
    sent_frames-append (handle env h f s).1 _ ∙ (λ i.
      handle-sent env h f s is_open i ++ dispatch_loop-replies h inbound (handle env h f s).0 o i)
