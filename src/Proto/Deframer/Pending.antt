-- ===== src/Proto/Deframer/Pending.antt =====
-- The bytes that the deframer holds of an unfinished frame (src/proto/deframer.rs).
use web3_pi_ups_service.Prelude.{
  ℕ, zero, suc, ◌+◌, ◌-◌, ◌/◌, ◌%◌, ◌≤◌, ◌≡◌, refl, sym, ap, ◌∙◌, ◌⊎◌, inl, inr, List, [], ◌∷◌,
  ◌++◌, length, get_or, drop, take, length-take, length-drop, append-nil, append_assoc, arith,
}
use native.Mathlib.Nat.{suc-add}
use web3_pi_ups_service.Proto
use web3_pi_ups_service.Proto.{max_payload}
use web3_pi_ups_service.Proto.Fletcher.{fletcher8}
use web3_pi_ups_service.Proto.Frame.{Frame}
use web3_pi_ups_service.Proto.Frame.Wire.{body, wire}
use web3_pi_ups_service.Proto.Deframer.{
  State, Deframer, completed, dispatch, feed_sync1, feed_sync2, feed_header, feed_payload,
  feed_ck_a, feed_ck_b, feed_end1, feed_end2, feed,
}
use web3_pi_ups_service.Proto.Deframer.Invariant.{Phase, IsWellFormed, Declares, Checks}

abbrev pub held : State → List ℕ → List ℕ
held State.sync1 buf = []
held State.sync2 buf = Proto.sync1 ∷ []
held State.end2 buf = Proto.sync1 ∷ Proto.sync2 ∷ (buf ++ (Proto.end1 ∷ []))
held _ buf = Proto.sync1 ∷ Proto.sync2 ∷ buf

-- The bytes since the sync sequence began, rebuilt from the state.
abbrev pub pending : Deframer → List ℕ
pending d = held d.state d.buf

dispatch-held :
    (s : State) (d : Deframer) (b : ℕ)
    → Phase s d.buf d.payload_len
    → d.state ≡ s
    → (pending (dispatch s d b).0 ≡ held s d.buf ++ (b ∷ []))
      ⊎ ((pending (dispatch s d b).0 ≡ []) ⊎ (pending (dispatch s d b).0 ≡ b ∷ []))
unfolding dispatch
dispatch-held State.sync1 d b h e = unfold feed_sync1 in ground arith
dispatch-held State.sync2 d b h e = unfold feed_sync2 in ground arith
dispatch-held State.header d b h e = unfold feed_header in ground arith
dispatch-held State.payload d b h e = unfold feed_payload in ground arith
dispatch-held State.ck_a d b h e = unfold feed_ck_a in ground arith
dispatch-held State.ck_b d b h e = unfold feed_ck_b in ground arith
dispatch-held State.end1 d b h e = unfold feed_end1 in ground arith
dispatch-held State.end2 d b h e = unfold feed_end2 in ground arith

-- A step keeps a suffix of what was pending and the new byte.
pub pending-feed :
    (d : Deframer) (b : ℕ)
    → IsWellFormed d
    → (front : List ℕ) × (pending d ++ (b ∷ []) ≡ front ++ pending (feed d b).0)
unfolding feed
pending-feed d b h = elim (dispatch-held d.state d b h refl) [
  | inl e ↦ ([], sym e)
  | inr (inl e) ↦
      (pending d ++ (b ∷ []), sym (append-nil _) ∙ ap (λ t. (pending d ++ (b ∷ [])) ++ t) (sym e))
  | inr (inr e) ↦ (pending d, ap (λ t. pending d ++ t) (sym e))
]

abbrev frame_of : List ℕ → ℕ → Frame
frame_of buf n = record {
  dst = get_or buf 0 0;
  src = get_or buf 1 0;
  class = get_or buf 2 0;
  op = get_or buf 3 0;
  flags = get_or buf 4 0;
  seq = get_or buf 5 0;
  payload = take (8 + n - 8) (drop 8 buf);
}

length-frame_of : (buf : List ℕ) (n : ℕ) → length buf ≡ 10 + n → length (frame_of buf n).payload ≡ n
length-frame_of buf n h =
    let e : 8 + n - 8 ≡ n = omega arith in
    rw e (length-take n (drop 8 buf) (omega (arith, length-drop 8 buf)))

-- The bytes that the checksum covers are the body of the frame.
take-body :
    (buf : List ℕ) (n : ℕ)
    → length buf ≡ 10 + n
    → Declares buf n
    → take (8 + n) buf ≡ body (frame_of buf n)
take-body (a ∷ b ∷ c ∷ d ∷ e ∷ f ∷ g ∷ i ∷ bs) n h (small, len) =
    let e1 : 8 + n ≡ suc (suc (suc (suc (suc (suc (suc (suc n))))))) = omega arith in
    let e2 : 8 + n - 8 ≡ n = omega arith in
    let e3 : length (take n bs) ≡ n = length-take n bs (omega arith) in
    let e4 : n % 256 ≡ g = omega arith in
    let e5 : n / 256 % 256 ≡ i = omega arith in rw (e2, e3, e4, e5) (rw e1)
take-body _ n h k = absurd (omega arith)

split_at_two :
    (n : ℕ) (xs : List ℕ)
    → length xs ≡ n + 2
    → xs ≡ take n xs ++ (get_or xs n 0 ∷ get_or xs (n + 1) 0 ∷ [])
split_at_two zero (a ∷ b ∷ []) h = refl
split_at_two (suc n) (x ∷ xs) h = simp suc-add (ap (λ t. x ∷ t) (split_at_two n xs (omega arith)))
split_at_two _ _ h = absurd (omega arith)

-- A full buffer is the body and its checksum.
buf-body :
    (buf : List ℕ) (n : ℕ)
    → length buf ≡ 10 + n
    → Declares buf n
    → Checks buf n
    → let bs = body (frame_of buf n) in buf ≡ bs ++ ((fletcher8 bs).0 ∷ (fletcher8 bs).1 ∷ [])
buf-body buf n size decl (a, b) =
    let t = take (8 + n) buf in
    split_at_two (8 + n) buf (omega arith)
    ∙ ap (λ x. t ++ (x ∷ get_or buf (8 + n + 1) 0 ∷ [])) a
    ∙ ap (λ x. t ++ ((fletcher8 t).0 ∷ x ∷ [])) b
    ∙ ap (λ u. u ++ ((fletcher8 u).0 ∷ (fletcher8 u).1 ∷ [])) (take-body buf n size decl)

-- In the last state the bytes held and the second end byte are the frame's wire form.
pub held-wire :
    (d : Deframer)
    → Phase State.end2 d.buf d.payload_len
    → (held State.end2 d.buf ++ (Proto.end2 ∷ []) ≡ wire (completed d))
      × (length (completed d).payload ≤ max_payload)
unfolding completed
held-wire d (size, decl, check) =
    let buf = d.buf in
    let n = d.payload_len in
    let f = frame_of buf n in
    let sums = (fletcher8 (body f)).0 ∷ (fletcher8 (body f)).1 ∷ [] in
    let whole = buf-body buf n size decl check in
    (
      ap (λ t. Proto.sync1 ∷ Proto.sync2 ∷ ((t ++ (Proto.end1 ∷ [])) ++ (Proto.end2 ∷ []))) whole
          ∙ ap (λ t. Proto.sync1 ∷ Proto.sync2 ∷ t)
              (append_assoc (body f ++ sums) (Proto.end1 ∷ []) (Proto.end2 ∷ [])
                ∙ append_assoc (body f) sums (Proto.end1 ∷ Proto.end2 ∷ [])),
      omega (arith, length-frame_of buf n size, decl),
    )
