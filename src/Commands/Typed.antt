-- ===== src/Commands/Typed.antt =====
-- The responses to remote commands are frames that can be sent (src/commands.rs).
use web3_pi_ups_service.Prelude.{
  ℕ, ◌≤◌, length, Bool, true, false, Option, none, some, Bool-cases, inl, inr, List, [], ◌∷◌, All,
  All-append, Text, is_utf8, Result, ok, err, arith,
}
use web3_pi_ups_service.Commands.{
  CommandsHandler, exit_code, response, spawn_shutdown_script, script_command, send_resp,
  send_resp_code, handle_host_shutdown, handle_host_reset, systemctl_command, contains, run_action,
  service_action, handle_host_service_action,
}
use web3_pi_ups_service.Commands.Allowed.{send-All}
use web3_pi_ups_service.Proto.{max_payload}
use web3_pi_ups_service.Proto.Frame.{Frame, IsByte}
use web3_pi_ups_service.Proto.Frame.Typed.{IsTypedFrame}
use web3_pi_ups_service.Proto.Payloads.HostServiceRestartV1
use web3_pi_ups_service.Proto.Payloads.HostServiceRestartV1.{HostServiceRestartV1}
use web3_pi_ups_service.Proto.Payloads.Wire.{PayloadError}
use web3_pi_ups_service.World.{Env}
use web3_pi_ups_service.World.Typed.{IsSendable}

exit_code-IsByte : (o : Option Bool) → IsByte (exit_code o)
exit_code-IsByte (some true) = omega arith
exit_code-IsByte (some false) = omega arith
exit_code-IsByte none = omega arith

module _ (env : Env) (h : CommandsHandler) (req : Frame) (typed : IsTypedFrame req) where
  send-IsSendable :
      (payload : List ℕ)
      → All IsByte payload
      → length payload ≤ max_payload
      → IsTypedFrame (response req payload) × (length payload ≤ max_payload)
  send-IsSendable payload p fits = (
    record {
      dst = typed.src;
      src = omega arith;
      class = typed.class;
      op = typed.op;
      flags = omega arith;
      seq = typed.seq;
      payload = p;
    },
    fits,
  )

  send_resp-IsSendable : All IsSendable (send_resp env req)
  unfolding send_resp
  send_resp-IsSendable = send-All IsSendable env _ (send-IsSendable [] tt (omega arith))

  send_resp_code-IsSendable :
      (code : ℕ) → IsByte code → All IsSendable (send_resp_code env req code)
  unfolding send_resp_code
  send_resp_code-IsSendable code k =
      send-All IsSendable env _ (send-IsSendable (code ∷ []) (k, tt) (omega arith))

  spawn_shutdown_script-IsSendable : (path : Text) → All IsSendable (spawn_shutdown_script env path)
  unfolding spawn_shutdown_script
  spawn_shutdown_script-IsSendable path = elim (Bool-cases (env.exists path)) [
    | inr missing ↦ simp missing (tt, tt)
    | inl there ↦ elim (Bool-cases (env.spawn_ok (script_command path))) [
      | inl started ↦ simp (there, started) (tt, tt)
      | inr failed ↦ simp (there, failed) (tt, (tt, tt))
    ]
  ]

  pub handle_host_shutdown-IsSendable : All IsSendable (handle_host_shutdown env h req)
  unfolding handle_host_shutdown
  handle_host_shutdown-IsSendable =
      All-append IsSendable (spawn_shutdown_script env h.shutdown_cfg.script_path) _
        (spawn_shutdown_script-IsSendable h.shutdown_cfg.script_path) send_resp-IsSendable

  pub handle_host_reset-IsSendable : All IsSendable (handle_host_reset env h req)
  unfolding handle_host_reset
  handle_host_reset-IsSendable = (tt, send_resp-IsSendable)

  run_action-IsSendable : (action unit : Text) → All IsSendable (run_action env h req action unit)
  unfolding run_action
  run_action-IsSendable action unit = elim (Bool-cases h.commands_cfg.allow_service_restart) [
    | inr off ↦ simp off (send_resp_code-IsSendable _ (omega arith))
    | inl on ↦ elim (Bool-cases (contains h.whitelist unit)) [
      | inr unlisted ↦ simp (on, unlisted) (send_resp_code-IsSendable _ (omega arith))
      | inl listed ↦
          simp (on, listed)
            (
              tt,
              send_resp_code-IsSendable _
                  (exit_code-IsByte (env.exit_ok (systemctl_command action unit))),
            )
    ]
  ]

  service_action-IsSendable :
      (action : Text) (r : Result HostServiceRestartV1 PayloadError)
      → All IsSendable (service_action env h req action r)
  unfolding service_action
  service_action-IsSendable action (err e) = send_resp_code-IsSendable _ (omega arith)
  service_action-IsSendable action (ok p) = elim (Bool-cases (is_utf8 p.unit)) [
    | inl good ↦ rw good (run_action-IsSendable action p.unit)
    | inr bad ↦ rw bad (send_resp_code-IsSendable _ (omega arith))
  ]

  pub handle_host_service_action-IsSendable :
      (action : Text) → All IsSendable (handle_host_service_action env h req action)
  unfolding handle_host_service_action
  handle_host_service_action-IsSendable action =
      service_action-IsSendable action (HostServiceRestartV1.decode req.payload)
