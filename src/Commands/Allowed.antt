-- ===== src/Commands/Allowed.antt =====
-- Which processes a remote command can start (src/commands.rs).
use web3_pi_ups_service.Prelude.{
  ℕ, ◌≡◌, ◌⊎◌, inl, inr, refl, true, Bool-cases, List, [], ◌∷◌, All, All-append, Text, ascii,
  is_utf8, Result, ok, err,
}
use web3_pi_ups_service.Proto.Frame.{Frame}
use web3_pi_ups_service.Proto.Payloads.HostServiceRestartV1
use web3_pi_ups_service.Proto.Payloads.HostServiceRestartV1.{HostServiceRestartV1}
use web3_pi_ups_service.Proto.Payloads.Wire.{PayloadError}
use web3_pi_ups_service.World.{Command, Env, Effect, sent, ran, send}
use web3_pi_ups_service.Commands.{
  CommandsHandler, contains, halt_command, reboot_command, script_command, systemctl_command,
  response, spawn_shutdown_script, send_resp, send_resp_code, handle_host_shutdown,
  handle_host_reset, run_action, service_action, handle_host_service_action,
}

abbrev pub Mem3 : Text → Text → Text → Text → Type 0
Mem3 t a b c = (t ≡ a) ⊎ ((t ≡ b) ⊎ (t ≡ c))

-- A `systemctl` call for a listed unit, with the kill switch on.
abbrev pub IsListed : CommandsHandler → Text → Command → Type 0
IsListed h action c =
    (unit : Text) × (c ≡ systemctl_command action unit)
    × (h.commands_cfg.allow_service_restart ≡ true)
    × (contains h.whitelist unit ≡ true)

abbrev pub ServiceAllowed : CommandsHandler → Text → Effect → Type 0
ServiceAllowed h action (sent f) = Unit
ServiceAllowed h action (ran c) = IsListed h action c

pub send-All : (P : Effect → Type 0) (env : Env) (f : Frame) → P (sent f) → All P (send env f)
send-All P env f p = elim (Bool-cases env.channel_open) [
  | inl yes_open ↦ rw yes_open (p, tt)
  | inr closed ↦ rw closed tt
]

send_resp_code-All :
    (P : Effect → Type 0) (env : Env) (req : Frame) (code : ℕ)
    → P (sent (response req (code ∷ [])))
    → All P (send_resp_code env req code)
unfolding send_resp_code
send_resp_code-All P env req code p = send-All P env (response req (code ∷ [])) p

run_action-ServiceAllowed :
    (env : Env) (h : CommandsHandler) (req : Frame) (action unit : Text)
    → All (ServiceAllowed h action) (run_action env h req action unit)
unfolding run_action
run_action-ServiceAllowed env h req action unit =
    elim (Bool-cases h.commands_cfg.allow_service_restart) [
      | inr off ↦ simp off (send_resp_code-All (ServiceAllowed h action) env req _ tt)
      | inl on ↦ elim (Bool-cases (contains h.whitelist unit)) [
        | inr unlisted ↦
            simp (on, unlisted) (send_resp_code-All (ServiceAllowed h action) env req _ tt)
        | inl listed ↦
            simp (on, listed)
              (
                (unit, refl, refl, listed),
                send_resp_code-All (ServiceAllowed h action) env req _ tt,
              )
      ]
    ]

service_action-ServiceAllowed :
    (env : Env) (h : CommandsHandler) (req : Frame) (action : Text)
    (r : Result HostServiceRestartV1 PayloadError)
    → All (ServiceAllowed h action) (service_action env h req action r)
unfolding service_action
service_action-ServiceAllowed env h req action (err e) =
    send_resp_code-All (ServiceAllowed h action) env req _ tt
service_action-ServiceAllowed env h req action (ok p) = elim (Bool-cases (is_utf8 p.unit)) [
  | inl good ↦ rw good (run_action-ServiceAllowed env h req action p.unit)
  | inr bad ↦ rw bad (send_resp_code-All (ServiceAllowed h action) env req _ tt)
]

-- A service request starts no process but `systemctl` with the requested action, on a unit of
-- the whitelist, while the kill switch is on.
pub handle_host_service_action-ServiceAllowed :
    (env : Env) (h : CommandsHandler) (req : Frame) (action : Text)
    → All (ServiceAllowed h action) (handle_host_service_action env h req action)
unfolding handle_host_service_action
handle_host_service_action-ServiceAllowed env h req action =
    service_action-ServiceAllowed env h req action (HostServiceRestartV1.decode req.payload)

-- The processes that any remote command can start.
abbrev pub IsAllowed : CommandsHandler → Effect → Type 0
IsAllowed h (sent f) = Unit
IsAllowed h (ran c) =
    (c ≡ halt_command)
    ⊎ ((c ≡ reboot_command)
        ⊎ ((c ≡ script_command h.shutdown_cfg.script_path)
            ⊎ ((action : Text) × Mem3 action (ascii "restart") (ascii "start") (ascii "stop")
                × IsListed h action c)))

ServiceAllowed-IsAllowed :
    (h : CommandsHandler) (action : Text) (es : List Effect)
    → Mem3 action (ascii "restart") (ascii "start") (ascii "stop")
    → All (ServiceAllowed h action) es
    → All (IsAllowed h) es
ServiceAllowed-IsAllowed h action [] m a = tt
ServiceAllowed-IsAllowed h action (sent f ∷ es) m a =
    (tt, ServiceAllowed-IsAllowed h action es m a.1)
ServiceAllowed-IsAllowed h action (ran c ∷ es) m a =
    (inr (inr (inr (action, m, a.0))), ServiceAllowed-IsAllowed h action es m a.1)

pub service_action-IsAllowed :
    (env : Env) (h : CommandsHandler) (req : Frame) (action : Text)
    → Mem3 action (ascii "restart") (ascii "start") (ascii "stop")
    → All (IsAllowed h) (handle_host_service_action env h req action)
service_action-IsAllowed env h req action m =
    ServiceAllowed-IsAllowed h action _ m
      (handle_host_service_action-ServiceAllowed env h req action)

spawn_shutdown_script-IsAllowed :
    (env : Env) (h : CommandsHandler)
    → All (IsAllowed h) (spawn_shutdown_script env h.shutdown_cfg.script_path)
unfolding spawn_shutdown_script
spawn_shutdown_script-IsAllowed env h =
    let path = h.shutdown_cfg.script_path in
    elim (Bool-cases (env.exists path)) [
      | inr missing ↦ simp missing (inl refl, tt)
      | inl there ↦ elim (Bool-cases (env.spawn_ok (script_command path))) [
        | inl started ↦ simp (there, started) (inr (inr (inl refl)), tt)
        | inr failed ↦ simp (there, failed) (inr (inr (inl refl)), (inl refl, tt))
      ]
    ]

pub handle_host_shutdown-IsAllowed :
    (env : Env) (h : CommandsHandler) (req : Frame)
    → All (IsAllowed h) (handle_host_shutdown env h req)
unfolding handle_host_shutdown send_resp
handle_host_shutdown-IsAllowed env h req =
    All-append (IsAllowed h) (spawn_shutdown_script env h.shutdown_cfg.script_path) _
      (spawn_shutdown_script-IsAllowed env h) (send-All (IsAllowed h) env _ tt)

pub handle_host_reset-IsAllowed :
    (env : Env) (h : CommandsHandler) (req : Frame)
    → All (IsAllowed h) (handle_host_reset env h req)
unfolding handle_host_reset send_resp
handle_host_reset-IsAllowed env h req = (inr (inl refl), send-All (IsAllowed h) env _ tt)
