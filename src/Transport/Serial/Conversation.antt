-- ===== src/Transport/Serial/Conversation.antt =====
-- From the frames that the device sends to the answers that it hears back: both directions of the
-- serial line with the dispatcher between them (src/transport/serial.rs, src/dispatcher.rs,
-- src/commands.rs).
use web3_pi_ups_service.Prelude.{
  ℕ, suc, ◌≤◌, ◌≡◌, refl, ap, sym, subst, ◌∙◌, true, false, ltb, Bool-cases, inl, inr, Option, none,
  some, List, [], ◌∷◌, All, All-append, length, flatten, map, arith, Text, ◌==◌, ◌&&◌, ◌||◌,
}
use web3_pi_ups_service.Commands.{CommandsHandler}
use web3_pi_ups_service.Dispatcher.{dispatch_loop, has_flag}
use web3_pi_ups_service.Dispatcher.Isolation.{IsIsolated, dispatch_loop-IsIsolated}
use web3_pi_ups_service.Dispatcher.Replies.{
  sent_frames, service_reply, action_of, reply, replies, dispatch_loop-replies,
}
use web3_pi_ups_service.Proto.{max_payload}
use web3_pi_ups_service.Proto.Class
use web3_pi_ups_service.Proto.Flag
use web3_pi_ups_service.Proto.Op
use web3_pi_ups_service.Proto.Deframer
use web3_pi_ups_service.Proto.Frame.{Frame}
use web3_pi_ups_service.State.{State}
use web3_pi_ups_service.Transport.Serial.{Read, Reader, bytes, reader_loop, writer_loop}
use web3_pi_ups_service.Transport.Serial.EndToEnd.{sendable, writer-reader}
use web3_pi_ups_service.World.{Env}

-- The frames that a new reader hears from bytes that arrive in chunks, with room for `room` frames.
abbrev pub heard : List (List ℕ) → ℕ → List Frame
heard chunks room =
    (reader_loop (map bytes chunks)
      (record { deframer = Deframer.new; sink = []; room = room })).1.sink

-- Frames with the worlds that they are handled in.
abbrev pub meet : (ℕ → Env) → List Frame → List (Env × Frame)
meet envs [] = []
meet envs (f ∷ fs) = (envs 0, f) ∷ meet (λ n. envs (suc n)) fs

-- The frames that the dispatcher sends on frames that it gets.
abbrev pub serve : CommandsHandler → (ℕ → Env) → State → List Frame → List Frame
serve h envs s fs = sent_frames (dispatch_loop h (meet envs fs) s).1

service_reply-IsShort :
    (env : Env) (h : CommandsHandler) (f : Frame) (action : Option Text)
    → All (λ g. length g.payload ≤ max_payload) (service_reply env h f action)
service_reply-IsShort env h f none = tt
service_reply-IsShort env h f (some action) = (omega arith, tt)

reply-IsShort :
    (env : Env) (h : CommandsHandler) (f : Frame)
    → All (λ g. length g.payload ≤ max_payload) (reply env h f)
reply-IsShort env h f = elim (Bool-cases (f.class == Class.host && has_flag f Flag.req)) [
  | inr other ↦ rw other tt
  | inl req ↦ elim (Bool-cases (f.op == Op.Host.shutdown || f.op == Op.Host.reset)) [
    | inl empty ↦ rw (req, empty) (omega arith, tt)
    | inr service ↦ rw (req, service) (service_reply-IsShort env h f (action_of f.op))
  ]
]

replies-IsShort :
    (h : CommandsHandler) (inbound : List (Env × Frame))
    → All (λ g. length g.payload ≤ max_payload) (replies h inbound)
replies-IsShort h [] = tt
replies-IsShort h ((env, f) ∷ inbound) =
    All-append _ (reply env h f) (replies h inbound) (reply-IsShort env h f)
      (replies-IsShort h inbound)

sendable-short : (fs : List Frame) → All (λ g. length g.payload ≤ max_payload) fs → sendable fs ≡ fs
sendable-short [] h = refl
sendable-short (f ∷ fs) (short, h) =
    let fits : ltb max_payload (length f.payload) ≡ false = ground arith in
    rw fits (ap (λ t. f ∷ t) (sendable-short fs h))

meet-open :
    (envs : ℕ → Env) (fs : List Frame)
    → ((n : ℕ) → (envs n).channel_open ≡ true)
    → All (λ item. item.0.channel_open ≡ true) (meet envs fs)
meet-open envs [] o = tt
meet-open envs (f ∷ fs) o = (o 0, meet-open (λ n. envs (suc n)) fs (λ n. o (suc n)))

-- What a reader hears of frames that a writer sent, in whatever chunks they arrive.
heard-writer_loop :
    (fs : List Frame) (writes room : ℕ) (chunks : List (List ℕ))
    → length fs ≤ writes
    → length (sendable fs) ≤ room
    → flatten chunks ≡ (writer_loop fs writes).1
    → heard chunks room ≡ sendable fs
heard-writer_loop fs writes room chunks enough space cut =
    ap (λ t. t.1.sink) (writer-reader fs writes chunks room enough space cut).1

-- The device sends any frames and hears back exactly the answers to those of them that the wire
-- format can carry, in their order, whatever the state of the agent and in whatever chunks the bytes
-- of both directions arrive: the writers have a write for every frame, the readers' channels have
-- room for them, and the agent's outbound channel is open.
pub heard-serve :
    (h : CommandsHandler) (envs : ℕ → Env) (s : State) (fs : List Frame)
    (chunks back : List (List ℕ)) (writes room left : ℕ)
    → length fs ≤ writes
    → length (sendable fs) ≤ room
    → flatten chunks ≡ (writer_loop fs writes).1
    → ((n : ℕ) → (envs n).channel_open ≡ true)
    → length (replies h (meet envs (sendable fs))) ≤ left
    → flatten back ≡ (writer_loop (serve h envs s (heard chunks room)) left).1
    → heard back left ≡ replies h (meet envs (sendable fs))
heard-serve h envs s fs chunks back writes room left enough space cut o answers cut_back =
    let there : heard chunks room ≡ sendable fs =
      heard-writer_loop fs writes room chunks enough space cut in
    let due = replies h (meet envs (sendable fs)) in
    let served : serve h envs s (heard chunks room) ≡ due =
      ap (serve h envs s) there
      ∙ dispatch_loop-replies h (meet envs (sendable fs)) s (meet-open envs (sendable fs) o) in
    let short : sendable due ≡ due =
      sendable-short due (replies-IsShort h (meet envs (sendable fs))) in
    heard-writer_loop due left left back answers (subst (λ t. length t ≤ left) (sym short) answers)
      (cut_back ∙ ap (λ t. (writer_loop t left).1) served)
    ∙ short

-- Whatever the port yields, noise, errors and any frames: the dispatcher starts no process other
-- than the configured script, `shutdown` and `systemctl` on a unit of the whitelist with the kill
-- switch on; and the pending shutdown, the sequence numbers and the host's own metrics stay as they
-- are.
pub dispatch_loop-reader_loop :
    (h : CommandsHandler) (envs : ℕ → Env) (s : State) (reads : List Read) (r : Reader)
    → IsIsolated h s (dispatch_loop h (meet envs (reader_loop reads r).1.sink) s)
dispatch_loop-reader_loop h envs s reads r =
    dispatch_loop-IsIsolated h (meet envs (reader_loop reads r).1.sink) s
