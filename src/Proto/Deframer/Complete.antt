-- ===== src/Proto/Deframer/Complete.antt =====
-- The deframer finds every frame that was sent (src/proto/deframer.rs).
use web3_pi_ups_service.Prelude.{
  ℕ, suc, ◌+◌, ◌≤◌, ◌≡◌, refl, ap, some, none, List, [], ◌∷◌, ◌++◌, ◌==◌, if◌then◌else◌, length,
  length-append, get_or-append_right, take-append_length, append_assoc, Result, ok, arith,
}
use web3_pi_ups_service.Proto
use web3_pi_ups_service.Proto.{max_payload}
use web3_pi_ups_service.Proto.Fletcher.{fletcher8}
use web3_pi_ups_service.Proto.Frame.{Frame, FrameError, from_le16}
use web3_pi_ups_service.Proto.Deframer.{
  State, Deframer, Output, push_result, new, completed, dispatch, feed_header, feed_payload,
  feed_ck_a, feed_ck_b, feed_end1, feed_end2, feed, feed_slice,
}

abbrev pub at : State → List ℕ → ℕ → Deframer
at s buf n = record { state = s; buf = buf; payload_len = n }

push_result-append :
    (o : Output) (rs ss : List (Result Frame FrameError))
    → push_result o (rs ++ ss) ≡ push_result o rs ++ ss
push_result-append none rs ss = refl
push_result-append (some r) rs ss = refl

-- Feeding one input behind another.
pub feed_slice-append :
    (d : Deframer) (xs ys : List ℕ)
    → feed_slice d (xs ++ ys) ≡ (
      (feed_slice (feed_slice d xs).0 ys).0,
      (feed_slice d xs).1 ++ (feed_slice (feed_slice d xs).0 ys).1,
    )
unfolding feed_slice
feed_slice-append d [] ys = refl
feed_slice-append d (x ∷ xs) ys = rw (feed_slice-append (feed d x).0 xs ys) (
    ap (λ t. ((feed_slice (feed_slice (feed d x).0 xs).0 ys).0, t))
      (push_result-append (feed d x).1 (feed_slice (feed d x).0 xs).1 _))

pub header_phase :
    (a b c d e f g h n : ℕ)
    → from_le16 g h ≡ n
    → n ≤ max_payload
    → feed_slice (at State.header [] 0) (a ∷ b ∷ c ∷ d ∷ e ∷ f ∷ g ∷ h ∷ []) ≡ (
      at (if n == 0 then State.ck_a else State.payload) (a ∷ b ∷ c ∷ d ∷ e ∷ f ∷ g ∷ h ∷ []) n,
      [],
    )
unfolding feed_slice feed dispatch feed_header
header_phase a b c d e f g h n p q = ground arith

pub payload_phase :
    (buf : List ℕ) (b : ℕ) (bs : List ℕ) (n : ℕ)
    → length buf + suc (length bs) ≡ 8 + n
    → feed_slice (at State.payload buf n) (b ∷ bs) ≡ (at State.ck_a (buf ++ (b ∷ bs)) n, [])
unfolding feed_slice feed dispatch feed_payload
payload_phase buf b [] n h = ground (arith, length-append buf (b ∷ []))
payload_phase buf b (c ∷ bs) n h = ground (
  arith,
  length-append buf (b ∷ []),
  payload_phase (buf ++ (b ∷ [])) c bs n,
  append_assoc buf (b ∷ []) (c ∷ bs),
)

pub checksum_phase :
    (bs : List ℕ) (n : ℕ)
    → length bs ≡ 8 + n
    → feed_slice (at State.ck_a bs n) ((fletcher8 bs).0 ∷ (fletcher8 bs).1 ∷ [])
      ≡ (at State.end1 (bs ++ ((fletcher8 bs).0 ∷ (fletcher8 bs).1 ∷ [])) n, [])
unfolding feed_slice feed dispatch feed_ck_a feed_ck_b
checksum_phase bs n h =
    let a = (fletcher8 bs).0 in
    let b = (fletcher8 bs).1 in
    ground (
      arith,
      append_assoc bs (a ∷ []) (b ∷ []),
      get_or-append_right bs (a ∷ b ∷ []) 0 (8 + n) 0,
      get_or-append_right bs (a ∷ b ∷ []) 1 (8 + n + 1) 0,
      take-append_length (8 + n) bs (a ∷ b ∷ []),
    )

pub end_phase :
    (buf : List ℕ) (n : ℕ)
    → feed_slice (at State.end1 buf n) (Proto.end1 ∷ Proto.end2 ∷ [])
      ≡ (new, ok (completed (at State.end2 buf n)) ∷ [])
unfolding feed_slice feed dispatch feed_end1 feed_end2 new
end_phase buf n = refl
