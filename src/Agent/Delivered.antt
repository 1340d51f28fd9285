-- ===== src/Agent/Delivered.antt =====
-- What the agent's tasks send arrives (src/main.rs, src/transport/serial.rs).
use web3_pi_ups_service.Prelude.{
  ℕ, ◌-◌, ◌≤◌, ◌≡◌, refl, ap, ◌∙◌, List, [], ◌∷◌, length, flatten, map, All, arith,
}
use web3_pi_ups_service.Agent.{Agent, Turn, run}
use web3_pi_ups_service.Agent.Typed.{IsTypedAgent, IsTypedTurn, run-IsTyped}
use web3_pi_ups_service.Config.{Config}
use web3_pi_ups_service.Dispatcher.Replies.{sent_frames}
use web3_pi_ups_service.Proto.Deframer
use web3_pi_ups_service.Transport.Serial.{bytes, waiting, reader_loop, writer_loop}
use web3_pi_ups_service.Transport.Serial.EndToEnd.{sendable, writer-reader}
use web3_pi_ups_service.World.{Effect, sent, ran}
use web3_pi_ups_service.World.Typed.{IsSendable}

-- The writer leaves out none of the frames that can be sent.
sendable-sent_frames :
    (es : List Effect) → All IsSendable es → sendable (sent_frames es) ≡ sent_frames es
sendable-sent_frames [] h = refl
sendable-sent_frames (sent f ∷ es) ((typed, fits), h) = ground (arith, sendable-sent_frames es h)
sendable-sent_frames (ran c ∷ es) h = sendable-sent_frames es h.1

-- Where the received bytes are bytes and the readings fit their types: the frames that the
-- dispatcher and the metrics task send in a run, written to the line with a write for each, reach
-- a new reader at the other end without exception, in order and unchanged, in whatever chunks the
-- bytes arrive, where its channel has room for them.
pub run-delivered :
    (cfg : Config) (turns : List Turn) (a : Agent) (writes : ℕ) (chunks : List (List ℕ)) (room : ℕ)
    → All IsTypedTurn turns
    → IsTypedAgent a
    → let fs = sent_frames (run cfg turns a).effects in
      length fs ≤ writes
      → length fs ≤ room
      → flatten chunks ≡ (writer_loop fs writes).1
      → reader_loop (map bytes chunks) (record { deframer = Deframer.new; sink = []; room = room })
        ≡ (waiting, record { deframer = Deframer.new; sink = fs; room = room - length fs })
run-delivered cfg turns a writes chunks room k h enough space cut =
    let es = (run cfg turns a).effects in
    let all = sendable-sent_frames es (run-IsTyped cfg turns a k h).effects in
    let space' : length (sendable (sent_frames es)) ≤ room = rw all space in
    (writer-reader (sent_frames es) writes chunks room enough space' cut).1
    ∙ ap (λ fs. (waiting, record { deframer = Deframer.new; sink = fs; room = room - length fs }))
        all
