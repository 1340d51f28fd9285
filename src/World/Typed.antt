-- ===== src/World/Typed.antt =====
-- What the agent puts on the outbound channel (src/transport/serial.rs).
use web3_pi_ups_service.Prelude.{length, ◌≤◌}
use web3_pi_ups_service.Proto.{max_payload}
use web3_pi_ups_service.Proto.Frame.Typed.{IsTypedFrame}
use web3_pi_ups_service.World.{Effect, sent, ran}

-- A frame of bytes, whose payload the wire format can carry; a process is not a frame.
abbrev pub IsSendable : Effect → Type 0
IsSendable (sent f) = IsTypedFrame f × (length f.payload ≤ max_payload)
IsSendable (ran c) = Unit
