-- ===== src/Proto/Deframer/Progress.antt =====
-- A frame that has begun ends within 252 bytes (src/proto/deframer.rs).
use web3_pi_ups_service.Prelude.{
  refl, ℕ, ◌+◌, ◌-◌, ◌≤◌, ◌<◌, ◌≡◌, inl, inr, none, Option-cases, List, [], ◌∷◌, length,
  length-append, arith,
}
use web3_pi_ups_service.Proto.Deframer.{
  State, Deframer, dispatch, feed_header, feed_payload, feed_ck_a, feed_ck_b, feed_end1, feed_end2,
  feed, feed_slice,
}
use web3_pi_ups_service.Proto.Deframer.Invariant.{Phase, IsWellFormed, feed-IsWellFormed}

-- The sync sequence has been seen, and the frame is not finished.
abbrev pub IsActive : State → Type 0
IsActive State.sync1 = ⊥
IsActive State.sync2 = ⊥
IsActive _ = Unit

-- An upper bound on the bytes up to the next result.
abbrev pub remaining : State → List ℕ → ℕ → ℕ
remaining State.sync1 buf n = 253
remaining State.sync2 buf n = 253
remaining State.header buf n = 252 - length buf
remaining State.payload buf n = 12 + n - length buf
remaining State.ck_a buf n = 4
remaining State.ck_b buf n = 3
remaining State.end1 buf n = 2
remaining State.end2 buf n = 1

abbrev pub left : Deframer → ℕ
left d = remaining d.state d.buf d.payload_len

dispatch-left :
    (s : State) (d : Deframer) (b : ℕ)
    → Phase s d.buf d.payload_len
    → IsActive s
    → d.state ≡ s
    → (dispatch s d b).1 ≡ none
    → IsActive (dispatch s d b).0.state
      × (left (dispatch s d b).0 < remaining s d.buf d.payload_len)
unfolding dispatch
dispatch-left State.sync1 d b h a e o = elim a [ ]
dispatch-left State.sync2 d b h a e o = elim a [ ]
dispatch-left State.header d b h a e o =
    unfold feed_header in ground (arith, length-append d.buf (b ∷ []))
dispatch-left State.payload d b h a e o =
    unfold feed_payload in ground (arith, length-append d.buf (b ∷ []))
dispatch-left State.ck_a d b h a e o = unfold feed_ck_a in ground arith
dispatch-left State.ck_b d b h a e o = unfold feed_ck_b in ground arith
dispatch-left State.end1 d b h a e o = unfold feed_end1 in ground arith
dispatch-left State.end2 d b h a e o = unfold feed_end2 in ground arith

pub feed-left :
    (d : Deframer) (b : ℕ)
    → IsWellFormed d
    → IsActive d.state
    → (feed d b).1 ≡ none
    → IsActive (feed d b).0.state × (left (feed d b).0 < left d)
unfolding feed
feed-left d b h a o = dispatch-left d.state d b h a refl o

left_le :
    (s : State) (buf : List ℕ) (n : ℕ)
    → Phase s buf n
    → IsActive s
    → (0 < remaining s buf n) × (remaining s buf n ≤ 252)
left_le State.sync1 buf n h a = elim a [ ]
left_le State.sync2 buf n h a = elim a [ ]
left_le _ buf n h a = omega arith

remaining_bounds :
    (s : State) (buf : List ℕ) (n : ℕ)
    → Phase s buf n
    → (0 < remaining s buf n) × (remaining s buf n ≤ 253)
remaining_bounds State.sync1 buf n h = omega arith
remaining_bounds State.sync2 buf n h = omega arith
remaining_bounds _ buf n h = omega arith

pub left_positive : (d : Deframer) → IsWellFormed d → 0 < left d
left_positive d h = (remaining_bounds d.state d.buf d.payload_len h).0

pub left_bound : (d : Deframer) → IsWellFormed d → left d ≤ 253
left_bound d h = (remaining_bounds d.state d.buf d.payload_len h).1

left_results :
    (d : Deframer) (bytes : List ℕ)
    → IsWellFormed d
    → IsActive d.state
    → left d ≤ length bytes
    → 0 < length (feed_slice d bytes).1
unfolding feed_slice
left_results d [] h a l = absurd (omega (arith, left_le d.state d.buf d.payload_len h a))
left_results d (b ∷ bytes) h a l = elim (Option-cases (feed d b).1) [
  | inl silent ↦
      let (active, fewer) = feed-left d b h a silent in
      rw silent (left_results (feed d b).0 bytes (feed-IsWellFormed d b h) active (omega arith))
  | inr (r, result) ↦ rw result (omega arith)
]

-- Once a sync sequence has been seen, the deframer reports a frame or an error within the next
-- 252 bytes, whatever they are.
pub feed_slice_progress :
    (d : Deframer) (bytes : List ℕ)
    → IsWellFormed d
    → IsActive d.state
    → 252 ≤ length bytes
    → 0 < length (feed_slice d bytes).1
feed_slice_progress d bytes h a l =
    left_results d bytes h a (omega (arith, left_le d.state d.buf d.payload_len h a))
