-- ===== src/Dispatcher/Typed.antt =====
-- The dispatcher keeps the state within its types and sends only what can be sent
-- (src/dispatcher.rs).
use web3_pi_ups_service.Prelude.{
  ℕ, ◌≡◌, refl, ◌==◌, if-either, List, [], ◌∷◌, All, ascii, Result, ok, err,
}
use web3_pi_ups_service.Commands.{CommandsHandler}
use web3_pi_ups_service.Commands.Typed.{
  handle_host_shutdown-IsSendable, handle_host_reset-IsSendable,
  handle_host_service_action-IsSendable,
}
use web3_pi_ups_service.Dispatcher.{
  Handled, decode_power, reduced, on_hello, on_power_status, on_power_event, on_net_status,
  handle_host, handle,
}
use web3_pi_ups_service.Proto.Frame.{Frame, IsByte}
use web3_pi_ups_service.Proto.Frame.Typed.{IsTypedFrame}
use web3_pi_ups_service.Proto.Payloads.Kinds
use web3_pi_ups_service.Proto.Payloads.Kinds.{decode_payload-InRange}
use web3_pi_ups_service.Proto.Payloads.NetStatusV1
use web3_pi_ups_service.Proto.Payloads.PowerEventV1
use web3_pi_ups_service.Proto.Payloads.PowerStatusV1
use web3_pi_ups_service.Proto.Payloads.PowerStatusV1.{PowerStatusV1}
use web3_pi_ups_service.Proto.Payloads.PowerStatusV2
use web3_pi_ups_service.Proto.Payloads.PowerStatusV2.{PowerStatusV2}
use web3_pi_ups_service.Proto.Payloads.SysHelloV1
use web3_pi_ups_service.Proto.Payloads.Wire.{PayloadError}
use web3_pi_ups_service.State.{State}
use web3_pi_ups_service.State.Typed.{
  IsTypedState, update_power-IsTypedState, update_power_event-IsTypedState, update_net-IsTypedState,
  record_hello-IsTypedState,
}
use web3_pi_ups_service.World.{Env}
use web3_pi_ups_service.World.Typed.{IsSendable}

-- A predicate on the decoded value, if there is one.
abbrev OnOk : {A : Type 0} → (A → Type 0) → Result A PayloadError → Type 0
OnOk P (ok a) = P a
OnOk P (err e) = Unit

OnOk-all :
    {A : Type 0} (P : A → Type 0) (r : Result A PayloadError)
    → ((a : A) → r ≡ ok a → P a)
    → OnOk P r
OnOk-all P (ok a) h = h a refl
OnOk-all P (err e) h = tt

reduced-InRange :
    (r : Result PowerStatusV2 PayloadError)
    → OnOk (λ p. PowerStatusV1.InRange (PowerStatusV2.to_v1 p)) r
    → OnOk PowerStatusV1.InRange (reduced r)
reduced-InRange (ok p) h = h
reduced-InRange (err e) h = tt

v1-InRange : (buf : List ℕ) → All IsByte buf → OnOk PowerStatusV1.InRange (PowerStatusV1.decode buf)
v1-InRange buf h = OnOk-all _ _ (λ p. decode_payload-InRange Kinds.power_status buf p h)

-- Either version of a power status made of bytes gives a v1 status in range.
decode_power-InRange :
    (buf : List ℕ) → All IsByte buf → OnOk PowerStatusV1.InRange (decode_power buf)
unfolding decode_power
decode_power-InRange [] h = v1-InRange [] h
decode_power-InRange (v ∷ rest) h =
    if-either (OnOk PowerStatusV1.InRange) (v == 2) _ _
      (reduced-InRange _ (OnOk-all _ _ (λ p. PowerStatusV2.decode-to_v1 (v ∷ rest) p h)))
      (v1-InRange (v ∷ rest) h)

module _ (s : State) (h : IsTypedState s) where
  on_hello-IsTypedState :
      (src : ℕ) (r : Result _ PayloadError)
      → IsByte src
      → OnOk SysHelloV1.InRange r
      → IsTypedState (on_hello src r s)
  unfolding on_hello
  on_hello-IsTypedState src (ok hello) b k = record_hello-IsTypedState s h src hello b k
  on_hello-IsTypedState src (err e) b k = h

  on_power_status-IsTypedState :
      (now : ℕ) (r : Result _ PayloadError)
      → OnOk PowerStatusV1.InRange r
      → IsTypedState (on_power_status now r s)
  unfolding on_power_status
  on_power_status-IsTypedState now (ok p) k = update_power-IsTypedState s h now p k
  on_power_status-IsTypedState now (err e) k = h

  on_power_event-IsTypedState :
      (now : ℕ) (r : Result _ PayloadError)
      → OnOk PowerEventV1.InRange r
      → IsTypedState (on_power_event now r s)
  unfolding on_power_event
  on_power_event-IsTypedState now (ok e) k = update_power_event-IsTypedState s h now e.event k.event
  on_power_event-IsTypedState now (err e) k = h

  on_net_status-IsTypedState :
      (now : ℕ) (r : Result _ PayloadError)
      → OnOk NetStatusV1.InRange r
      → IsTypedState (on_net_status now r s)
  unfolding on_net_status
  on_net_status-IsTypedState now (ok n) k = update_net-IsTypedState s h now n k
  on_net_status-IsTypedState now (err e) k = h

  module _ (env : Env) (commands : CommandsHandler) (frame : Frame) (f : IsTypedFrame frame) where
    abbrev IsTypedHandled : Handled → Type 0
    IsTypedHandled r = IsTypedState r.0 × All IsSendable r.1

    handle_host-IsTyped : IsTypedHandled (handle_host env commands frame s)
    unfolding handle_host
    handle_host-IsTyped =
        let Q = IsTypedHandled in
        let service = handle_host_service_action-IsSendable env commands frame f in
        if-either Q _ _ _ (h, handle_host_shutdown-IsSendable env commands frame f)
          (if-either Q _ _ _ (h, handle_host_reset-IsSendable env commands frame f)
            (if-either Q _ _ _ (h, service (ascii "restart"))
              (if-either Q _ _ _ (h, service (ascii "start"))
                (if-either Q _ _ _ (h, service (ascii "stop")) (h, tt)))))

    -- A frame of bytes keeps the state within its types, and what is sent in answer to it are
    -- frames that can be sent.
    pub handle-IsTyped : IsTypedHandled (handle env commands frame s)
    unfolding handle
    handle-IsTyped =
        let Q = IsTypedHandled in
        let b = f.payload in
        if-either Q _ _ _
          (
            on_hello-IsTypedState frame.src _ f.src
                (OnOk-all _ _ (λ p. decode_payload-InRange Kinds.sys_hello frame.payload p b)),
            tt,
          )
          (if-either Q _ _ _
            (on_power_status-IsTypedState _ _ (decode_power-InRange frame.payload b), tt)
            (if-either Q _ _ _
              (
                on_power_event-IsTypedState _ _ (
                    OnOk-all _ _ (λ p. decode_payload-InRange Kinds.power_event frame.payload p b)),
                tt,
              )
              (if-either Q _ _ _
                (
                  on_net_status-IsTypedState _ _ (
                      OnOk-all _ _
                        (λ p. decode_payload-InRange Kinds.net_status frame.payload p b)),
                  tt,
                )
                handle_host-IsTyped)))
