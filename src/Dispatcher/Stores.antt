-- ===== src/Dispatcher/Stores.antt =====
-- What telemetry frames store (src/dispatcher.rs).
use web3_pi_ups_service.Prelude.{ℕ, ◌≡◌, refl, ap, ◌∙◌, List, [], ◌∷◌, ok, arith}
use web3_pi_ups_service.Commands.{CommandsHandler}
use web3_pi_ups_service.Proto.Class
use web3_pi_ups_service.Proto.Op
use web3_pi_ups_service.Proto.Frame.{Frame}
use web3_pi_ups_service.Proto.Payloads.PowerStatusV1
use web3_pi_ups_service.Proto.Payloads.PowerStatusV1.{PowerStatusV1, power_status_v1_round_trip}
use web3_pi_ups_service.Proto.Payloads.PowerStatusV2
use web3_pi_ups_service.Proto.Payloads.PowerStatusV2.{PowerStatusV2}
use web3_pi_ups_service.State.{State, update_power}
use web3_pi_ups_service.World.{Env}
use web3_pi_ups_service.Dispatcher.{decode_power, on_power_status, handle}

-- A `power.status` frame.
abbrev pub IsPowerStatus : Frame → Type 0
IsPowerStatus frame = (frame.class ≡ Class.power) × (frame.op ≡ Op.Power.status)

handle-power :
    (env : Env) (commands : CommandsHandler) (frame : Frame) (s : State)
    → IsPowerStatus frame
    → handle env commands frame s ≡ (on_power_status env.now (decode_power frame.payload) s, [])
unfolding handle
handle-power env commands frame s (c, o) = simp (c, o)

decode_power-v1 :
    (p : PowerStatusV1)
    → decode_power (PowerStatusV1.encode p) ≡ PowerStatusV1.decode (PowerStatusV1.encode p)
unfolding decode_power PowerStatusV1.encode
decode_power-v1 p = refl

decode_power-encode :
    (p : PowerStatusV1) → PowerStatusV1.InRange p → decode_power (PowerStatusV1.encode p) ≡ ok p
decode_power-encode p h = decode_power-v1 p ∙ (power_status_v1_round_trip p h).0

decode_power-v2 :
    (payload : List ℕ) (p : PowerStatusV2)
    → PowerStatusV2.decode payload ≡ ok p
    → decode_power payload ≡ ok (PowerStatusV2.to_v1 p)
unfolding decode_power
decode_power-v2 [] p h = unfold PowerStatusV2.decode in ground arith
decode_power-v2 (v ∷ rest) p h = rw (PowerStatusV2.decode-version (v ∷ rest) p h, h)

-- A `power.status` frame whose payload is the encoding of a v1 status with fields in range stores
-- that status with the time, and does nothing else.
pub handle-power_v1 :
    (env : Env) (commands : CommandsHandler) (frame : Frame) (s : State) (p : PowerStatusV1)
    → IsPowerStatus frame
    → PowerStatusV1.InRange p
    → frame.payload ≡ PowerStatusV1.encode p
    → handle env commands frame s ≡ (update_power env.now p s, [])
unfolding on_power_status
handle-power_v1 env commands frame s p c h e =
    handle-power env commands frame s c
    ∙ ap (λ r. (on_power_status env.now r s, [])) (ap decode_power e ∙ decode_power-encode p h)

-- A `power.status` frame whose payload decodes as a v2 status stores the reduction of it to v1 with
-- the time, and does nothing else.
pub handle-power_v2 :
    (env : Env) (commands : CommandsHandler) (frame : Frame) (s : State) (p : PowerStatusV2)
    → IsPowerStatus frame
    → PowerStatusV2.decode frame.payload ≡ ok p
    → handle env commands frame s ≡ (update_power env.now (PowerStatusV2.to_v1 p) s, [])
unfolding on_power_status
handle-power_v2 env commands frame s p c h =
    handle-power env commands frame s c
    ∙ ap (λ r. (on_power_status env.now r s, [])) (decode_power-v2 frame.payload p h)
