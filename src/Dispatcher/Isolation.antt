-- ===== src/Dispatcher/Isolation.antt =====
-- What no frame can do (src/dispatcher.rs).
use web3_pi_ups_service.Prelude.{
  ℕ, ◌≡◌, inl, inr, refl, if-either, List, [], ◌∷◌, All, All-append, ◌∙◌, Result, ok, err, Text,
  ascii, arith,
}
use web3_pi_ups_service.Commands.{
  CommandsHandler, handle_host_shutdown, handle_host_reset, handle_host_service_action,
  service_action,
}
use web3_pi_ups_service.Commands.Allowed.{
  IsAllowed, service_action-IsAllowed, handle_host_shutdown-IsAllowed, handle_host_reset-IsAllowed,
}
use web3_pi_ups_service.Proto.Frame.{Frame}
use web3_pi_ups_service.Proto.Payloads.HostServiceRestartV1
use web3_pi_ups_service.Proto.Payloads.HostServiceRestartV1.{HostServiceRestartV1}
use web3_pi_ups_service.Proto.Payloads.NetStatusV1.{NetStatusV1}
use web3_pi_ups_service.Proto.Payloads.PowerEventV1.{PowerEventV1}
use web3_pi_ups_service.Proto.Payloads.PowerStatusV1.{PowerStatusV1}
use web3_pi_ups_service.Proto.Payloads.SysHelloV1.{SysHelloV1}
use web3_pi_ups_service.Proto.Payloads.Wire.{PayloadError}
use web3_pi_ups_service.State.{State, update_power, update_power_event, update_net, record_hello}
use web3_pi_ups_service.World.{Env, Effect}
use web3_pi_ups_service.Dispatcher.{
  Handled, on_hello, on_power_status, on_power_event, on_net_status, handle_host, handle,
  dispatch_loop,
}

-- The state after a frame, but for what the device reports: telemetry and peers.
pub record KeepsOwn (s s' : State) : Type 0 where
  pub pending_kept : s'.inner.shutdown_pending_since ≡ s.inner.shutdown_pending_since
  pub seq_kept : s'.tx_seq ≡ s.tx_seq
  pub host_kept : s'.inner.last_host ≡ s.inner.last_host
  pub host_at_kept : s'.inner.last_host_at ≡ s.inner.last_host_at
  pub cpu_kept : s'.inner.cpu_usage_pct ≡ s.inner.cpu_usage_pct
  pub net_totals_kept : s'.inner.net_totals ≡ s.inner.net_totals
  pub rx_kept : s'.inner.net_rx_bytes_per_s ≡ s.inner.net_rx_bytes_per_s
  pub tx_kept : s'.inner.net_tx_bytes_per_s ≡ s.inner.net_tx_bytes_per_s

pub record IsIsolated (commands : CommandsHandler) (s : State) (r : Handled) : Type 0 where
  pub processes : All (IsAllowed commands) r.1
  pub kept : KeepsOwn s r.0

same-KeepsOwn : (s : State) → KeepsOwn s s
same-KeepsOwn s = ground arith

on_hello-KeepsOwn :
    (src : ℕ) (r : Result SysHelloV1 PayloadError) (s : State) → KeepsOwn s (on_hello src r s)
unfolding on_hello record_hello
on_hello-KeepsOwn src (ok h) s = ground arith
on_hello-KeepsOwn src (err e) s = ground arith

on_power_status-KeepsOwn :
    (now : ℕ) (r : Result PowerStatusV1 PayloadError) (s : State)
    → KeepsOwn s (on_power_status now r s)
unfolding on_power_status update_power
on_power_status-KeepsOwn now (ok h) s = ground arith
on_power_status-KeepsOwn now (err e) s = ground arith

on_power_event-KeepsOwn :
    (now : ℕ) (r : Result PowerEventV1 PayloadError) (s : State)
    → KeepsOwn s (on_power_event now r s)
unfolding on_power_event update_power_event
on_power_event-KeepsOwn now (ok h) s = ground arith
on_power_event-KeepsOwn now (err e) s = ground arith

on_net_status-KeepsOwn :
    (now : ℕ) (r : Result NetStatusV1 PayloadError) (s : State) → KeepsOwn s (on_net_status now r s)
unfolding on_net_status update_net
on_net_status-KeepsOwn now (ok h) s = ground arith
on_net_status-KeepsOwn now (err e) s = ground arith

service_action-any_dst :
    (env : Env) (h : CommandsHandler) (req : Frame) (dst : ℕ) (action : Text)
    (r : Result HostServiceRestartV1 PayloadError)
    → service_action env h (record req { dst = dst }) action r ≡ service_action env h req action r
unfolding service_action
service_action-any_dst env h req dst action (ok p) = refl
service_action-any_dst env h req dst action (err e) = refl

service-any_dst :
    (env : Env) (h : CommandsHandler) (req : Frame) (dst : ℕ) (action : Text)
    → handle_host_service_action env h (record req { dst = dst }) action
      ≡ handle_host_service_action env h req action
unfolding handle_host_service_action
service-any_dst env h req dst action =
    service_action-any_dst env h req dst action (HostServiceRestartV1.decode req.payload)

module _ (env : Env) (commands : CommandsHandler) (frame : Frame) (s : State) where
  runs : {es : List Effect} → All (IsAllowed commands) es → IsIsolated commands s (s, es)
  runs a = record { processes = a; kept = same-KeepsOwn s }

  stores : {s' : State} → KeepsOwn s s' → IsIsolated commands s (s', [])
  stores k = record { processes = tt; kept = k }

  handle_host-IsIsolated : IsIsolated commands s (handle_host env commands frame s)
  unfolding handle_host
  handle_host-IsIsolated =
      let Q = IsIsolated commands s in
      if-either Q _ _ _ (runs (handle_host_shutdown-IsAllowed env commands frame)) (
        if-either Q _ _ _ (runs (handle_host_reset-IsAllowed env commands frame)) (
          if-either Q _ _ _
            (runs (service_action-IsAllowed env commands frame (ascii "restart") (inl refl)))
            (if-either Q _ _ _
              (runs (service_action-IsAllowed env commands frame (ascii "start") (inr (inl refl))))
              (if-either Q _ _ _
                (runs (service_action-IsAllowed env commands frame (ascii "stop") (inr (inr refl))))
                (stores (same-KeepsOwn s))))))

  -- No frame starts a process other than the configured script, `shutdown` and `systemctl` on a
  -- unit of the whitelist with the kill switch on; and no frame writes the pending shutdown, the
  -- sequence numbers or the host's own metrics.
  pub handle-IsIsolated : IsIsolated commands s (handle env commands frame s)
  unfolding handle
  handle-IsIsolated =
      let Q = IsIsolated commands s in
      if-either Q _ _ _ (stores (on_hello-KeepsOwn _ _ s)) (
        if-either Q _ _ _ (stores (on_power_status-KeepsOwn _ _ s)) (
          if-either Q _ _ _ (stores (on_power_event-KeepsOwn _ _ s))
            (if-either Q _ _ _ (stores (on_net_status-KeepsOwn _ _ s)) handle_host-IsIsolated)))

  -- A frame is handled alike whatever its destination is, the null address included.
  pub handle-any_dst :
      (dst : ℕ) → handle env commands (record frame { dst = dst }) s ≡ handle env commands frame s
  unfolding handle handle_host_shutdown handle_host_reset
  handle-any_dst dst = rw (
    service-any_dst env commands frame dst (ascii "restart"),
    service-any_dst env commands frame dst (ascii "start"),
    service-any_dst env commands frame dst (ascii "stop"),
  )

append-KeepsOwn : (s t u : State) → KeepsOwn s t → KeepsOwn t u → KeepsOwn s u
append-KeepsOwn s t u h k = record {
  pending_kept = k.pending_kept ∙ h.pending_kept;
  seq_kept = k.seq_kept ∙ h.seq_kept;
  host_kept = k.host_kept ∙ h.host_kept;
  host_at_kept = k.host_at_kept ∙ h.host_at_kept;
  cpu_kept = k.cpu_kept ∙ h.cpu_kept;
  net_totals_kept = k.net_totals_kept ∙ h.net_totals_kept;
  rx_kept = k.rx_kept ∙ h.rx_kept;
  tx_kept = k.tx_kept ∙ h.tx_kept;
}

-- The same of the loop over any frames.
pub dispatch_loop-IsIsolated :
    (commands : CommandsHandler) (inbound : List (Env × Frame)) (s : State)
    → IsIsolated commands s (dispatch_loop commands inbound s)
unfolding dispatch_loop
dispatch_loop-IsIsolated commands [] s = record { processes = tt; kept = same-KeepsOwn s }
dispatch_loop-IsIsolated commands ((env, frame) ∷ inbound) s =
    let first = handle env commands frame s in
    let here = handle-IsIsolated env commands frame s in
    let later = dispatch_loop-IsIsolated commands inbound first.0 in
    record {
      processes =
          All-append (IsAllowed commands) first.1 (dispatch_loop commands inbound first.0).1
            here.processes later.processes;
      kept =
          append-KeepsOwn s first.0 (dispatch_loop commands inbound first.0).0 here.kept later.kept;
    }
