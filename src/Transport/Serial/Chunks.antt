-- ===== src/Transport/Serial/Chunks.antt =====
-- The reader's frames do not depend on how the bytes arrive (src/transport/serial.rs).
use web3_pi_ups_service.Prelude.{
  ℕ, zero, suc, ◌-◌, ◌≤◌, ◌≡◌, refl, sym, ap, subst, ◌∙◌, true, if◌then◌else◌, none, some, List, [],
  ◌∷◌, ◌++◌, length, append-nil, append_assoc, flatten, Bool-cases, inl, inr, map, Result, ok, err,
  arith,
}
use web3_pi_ups_service.Proto.Deframer.{Deframer, Output, push_result, feed, feed_slice}
use web3_pi_ups_service.Proto.Deframer.Sound.{frames}
use web3_pi_ups_service.Proto.Frame.{Frame, FrameError}
use web3_pi_ups_service.Transport.Serial.{
  bytes, waiting, inbound_closed, Reader, offer, deliver, feed_byte, feed_chunk, reader_loop,
}

-- What the reader is after it has read the bytes with room for all their frames.
abbrev pub after : List ℕ → Reader → Reader
after bs r =
    let fed = feed_slice r.deframer bs in
    record {
      deframer = fed.0;
      sink = r.sink ++ frames fed.1;
      room = r.room - length (frames fed.1);
    }

deliver-push :
    (o : Output) (rs : List (Result Frame FrameError)) (r : Reader)
    → length (frames (push_result o rs)) ≤ r.room
    → ((deliver o r).1 ≡ true)
      × ((deliver o r).0.deframer ≡ r.deframer)
      × (length (frames rs) ≤ (deliver o r).0.room)
      × ((deliver o r).0.sink ++ frames rs ≡ r.sink ++ frames (push_result o rs))
      × ((deliver o r).0.room - length (frames rs) ≡ r.room - length (frames (push_result o rs)))
unfolding deliver offer
deliver-push none rs r h = (refl, refl, h, refl, refl)
deliver-push (some (err e)) rs r h = (refl, refl, h, refl, refl)
deliver-push (some (ok f)) rs r h = go r.room h
  where
    go :
        (room : ℕ)
        → suc (length (frames rs)) ≤ room
        → let r' = offer room f r in
          (r'.1 ≡ true)
          × (r'.0.deframer ≡ r.deframer)
          × (length (frames rs) ≤ r'.0.room)
          × (r'.0.sink ++ frames rs ≡ r.sink ++ (f ∷ frames rs))
          × (r'.0.room - length (frames rs) ≡ room - suc (length (frames rs)))
    go zero h = absurd (omega arith)
    go (suc left) h =
        (refl, refl, omega arith, append_assoc r.sink (f ∷ []) (frames rs), omega arith)

-- `after` at a reader whose deframer is known.
after-known :
    (bs : List ℕ) (x : Reader) (d : Deframer) (sink : List Frame) (room : ℕ)
    → x.deframer ≡ d
    → x.sink ++ frames (feed_slice d bs).1 ≡ sink
    → x.room - length (frames (feed_slice d bs).1) ≡ room
    → after bs x ≡ record { deframer = (feed_slice d bs).0; sink = sink; room = room }
after-known bs x d sink room e s q =
    ap
      (λ (c : Deframer).
        let r : Reader = record {
          deframer = (feed_slice c bs).0;
          sink = x.sink ++ frames (feed_slice c bs).1;
          room = x.room - length (frames (feed_slice c bs).1);
        } in
        r)
      e
    ∙ (λ i. record { deframer = (feed_slice d bs).0; sink = s i; room = q i })

pub feed_chunk-after :
    (bs : List ℕ) (r : Reader)
    → length (frames (feed_slice r.deframer bs).1) ≤ r.room
    → feed_chunk bs r ≡ (after bs r, true)
unfolding feed_chunk feed_slice feed_byte
feed_chunk-after [] r h =
    let all_room : r.room - 0 ≡ r.room = omega arith in rw (append-nil r.sink, all_room)
feed_chunk-after (b ∷ bs) r h =
    let d = (feed r.deframer b).0 in
    let o = (feed r.deframer b).1 in
    let rs = (feed_slice d bs).1 in
    let next = (deliver o (record r { deframer = d })).0 in
    let (goes_on, same, room, sink, left) = deliver-push o rs (record r { deframer = d }) h in
    let enough : length (frames (feed_slice next.deframer bs).1) ≤ next.room =
      subst (λ t. length (frames (feed_slice t bs).1) ≤ next.room) (sym same) room in
    ap (λ t. if t then feed_chunk bs next else (next, t)) goes_on
    ∙ feed_chunk-after bs next enough
    ∙ ap (λ t. (t, true)) (after-known bs next d _ _ same sink left)

feed_chunk-append :
    (xs ys : List ℕ) (r : Reader)
    → feed_chunk (xs ++ ys) r
      ≡ (if (feed_chunk xs r).1 then feed_chunk ys (feed_chunk xs r).0 else feed_chunk xs r)
unfolding feed_chunk
feed_chunk-append [] ys r = refl
feed_chunk-append (b ∷ xs) ys r = elim (Bool-cases (feed_byte b r).1) [
  | inl on ↦ rw on (feed_chunk-append xs ys (feed_byte b r).0)
  | inr off ↦ rw off
]

-- The reader's run does not depend on how the bytes are cut into reads: it is the run over all
-- of them at once, also when the inbound channel is closed on the way.
pub reader_loop_chunks :
    (chunks : List (List ℕ)) (r : Reader)
    → let all = feed_chunk (flatten chunks) r in
      reader_loop (map bytes chunks) r
      ≡ (if all.1 then (waiting, all.0) else (inbound_closed, all.0))
unfolding reader_loop
reader_loop_chunks [] r = unfold feed_chunk in refl
reader_loop_chunks (c ∷ chunks) r =
    rw (feed_chunk-append c (flatten chunks) r) (elim (Bool-cases (feed_chunk c r).1) [
      | inl on ↦ rw on (reader_loop_chunks chunks (feed_chunk c r).0)
      | inr off ↦ rw off
    ])
