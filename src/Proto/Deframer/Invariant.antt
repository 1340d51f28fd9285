-- ===== src/Proto/Deframer/Invariant.antt =====
-- What holds of the deframer between two bytes (src/proto/deframer.rs).
use web3_pi_ups_service.Prelude.{
  ℕ, suc, ◌+◌, ◌*◌, ◌≤◌, ◌<◌, ◌≡◌, refl, ap, ◌∙◌, some, List, [], ◌∷◌, ◌++◌, length, length-append,
  get_or, get_or-append_left, take, Result, arith,
}
use web3_pi_ups_service.Proto.{header_data_bytes, max_payload}
use web3_pi_ups_service.Proto.Fletcher.{fletcher8}
use web3_pi_ups_service.Proto.Frame.{Frame, FrameError, from_le16}
use web3_pi_ups_service.Proto.Deframer.{
  State, Deframer, new, feed_sync1, feed_sync2, feed_header, feed_payload, feed_ck_a, feed_ck_b,
  feed_end1, feed_end2, feed, feed_slice, dispatch,
}

-- The declared payload length, as the header bytes in the buffer give it.
abbrev pub Declares : List ℕ → ℕ → Type 0
Declares buf n = (n ≤ max_payload) × (from_le16 (get_or buf 6 0) (get_or buf 7 0) ≡ n)

-- The two checksum bytes behind the payload are the right ones.
abbrev pub Checks : List ℕ → ℕ → Type 0
Checks buf n =
    (get_or buf (8 + n) 0 ≡ (fletcher8 (take (8 + n) buf)).0)
    × (get_or buf (8 + n + 1) 0 ≡ (fletcher8 (take (8 + n) buf)).1)

-- How full the buffer is in each state, and what is known of its bytes.
abbrev pub Phase : State → List ℕ → ℕ → Type 0
Phase State.sync1 buf n = (buf ≡ []) × (n ≡ 0)
Phase State.sync2 buf n = (buf ≡ []) × (n ≡ 0)
Phase State.header buf n = (length buf < 8) × (n ≡ 0)
Phase State.payload buf n = (8 ≤ length buf) × (length buf < 8 + n) × Declares buf n
Phase State.ck_a buf n = (length buf ≡ 8 + n) × Declares buf n
Phase State.ck_b buf n = (length buf ≡ 9 + n) × Declares buf n
Phase State.end1 buf n = (length buf ≡ 10 + n) × Declares buf n × Checks buf n
Phase State.end2 buf n = (length buf ≡ 10 + n) × Declares buf n × Checks buf n

abbrev pub IsWellFormed : Deframer → Type 0
IsWellFormed d = Phase d.state d.buf d.payload_len

pub new-IsWellFormed : IsWellFormed new
unfolding new
new-IsWellFormed = (refl, refl)

length-push : (buf : List ℕ) (b : ℕ) → length (buf ++ (b ∷ [])) ≡ suc (length buf)
length-push buf b = omega (arith, length-append buf (b ∷ []))

-- Bytes pushed behind the header leave the declared length alone.
Declares-push :
    (buf : List ℕ) (b n : ℕ) → 8 ≤ length buf → Declares buf n → Declares (buf ++ (b ∷ [])) n
Declares-push buf b n h (small, e) = (
  small,
  ap (λ t. t + 256 * get_or (buf ++ (b ∷ [])) 7 0)
        (get_or-append_left buf (b ∷ []) 6 0 (omega arith))
      ∙ ap (λ t. get_or buf 6 0 + 256 * t) (get_or-append_left buf (b ∷ []) 7 0 (omega arith))
      ∙ e,
)

feed_header-IsWellFormed :
    (d : Deframer) (b : ℕ)
    → Phase State.header d.buf d.payload_len
    → d.state ≡ State.header
    → IsWellFormed (feed_header d b).0
unfolding feed_header
feed_header-IsWellFormed d b h s = ground (arith, length-push d.buf b)

feed_payload-IsWellFormed :
    (d : Deframer) (b : ℕ)
    → Phase State.payload d.buf d.payload_len
    → d.state ≡ State.payload
    → IsWellFormed (feed_payload d b).0
unfolding feed_payload
feed_payload-IsWellFormed d b h s =
    ground (arith, length-push d.buf b, Declares-push d.buf b d.payload_len)

feed_ck_a-IsWellFormed :
    (d : Deframer) (b : ℕ) → Phase State.ck_a d.buf d.payload_len → IsWellFormed (feed_ck_a d b).0
unfolding feed_ck_a
feed_ck_a-IsWellFormed d b h =
    ground (arith, length-push d.buf b, Declares-push d.buf b d.payload_len)

feed_ck_b-IsWellFormed :
    (d : Deframer) (b : ℕ) → Phase State.ck_b d.buf d.payload_len → IsWellFormed (feed_ck_b d b).0
unfolding feed_ck_b
feed_ck_b-IsWellFormed d b h =
    ground (arith, length-push d.buf b, Declares-push d.buf b d.payload_len)

dispatch-IsWellFormed :
    (s : State) (d : Deframer) (b : ℕ)
    → Phase s d.buf d.payload_len
    → d.state ≡ s
    → IsWellFormed (dispatch s d b).0
unfolding dispatch
dispatch-IsWellFormed State.sync1 d b h e = unfold feed_sync1 in ground arith
dispatch-IsWellFormed State.sync2 d b h e = unfold feed_sync2 in ground arith
dispatch-IsWellFormed State.header d b h e = feed_header-IsWellFormed d b h e
dispatch-IsWellFormed State.payload d b h e = feed_payload-IsWellFormed d b h e
dispatch-IsWellFormed State.ck_a d b h e = feed_ck_a-IsWellFormed d b h
dispatch-IsWellFormed State.ck_b d b h e = feed_ck_b-IsWellFormed d b h
dispatch-IsWellFormed State.end1 d b h e = unfold feed_end1 in ground arith
dispatch-IsWellFormed State.end2 d b h e = unfold feed_end2 in ground arith

-- Every byte, in every state, keeps the deframer well formed.
pub feed-IsWellFormed : (d : Deframer) (b : ℕ) → IsWellFormed d → IsWellFormed (feed d b).0
unfolding feed
feed-IsWellFormed d b h = dispatch-IsWellFormed d.state d b h refl

pub feed_slice-IsWellFormed :
    (d : Deframer) (bytes : List ℕ) → IsWellFormed d → IsWellFormed (feed_slice d bytes).0
unfolding feed_slice
feed_slice-IsWellFormed d [] h = h
feed_slice-IsWellFormed d (b ∷ bytes) h =
    feed_slice-IsWellFormed (feed d b).0 bytes (feed-IsWellFormed d b h)

Phase-length : (s : State) (buf : List ℕ) (n : ℕ) → Phase s buf n → length buf ≤ 250
Phase-length State.sync1 buf n h = ground arith
Phase-length State.sync2 buf n h = ground arith
Phase-length _ buf n h = omega arith

-- After any input the buffer holds at most the 250 bytes that were reserved for it.
pub length-feed_slice :
    (bytes : List ℕ) → length (feed_slice new bytes).0.buf ≤ header_data_bytes + max_payload + 2
length-feed_slice bytes = Phase-length _ _ _ (feed_slice-IsWellFormed new bytes new-IsWellFormed)

dispatch-reset :
    (s : State) (d : Deframer) (b : ℕ) {r : Result Frame FrameError}
    → (dispatch s d b).1 ≡ some r
    → (dispatch s d b).0 ≡ new
unfolding dispatch new feed_sync1 feed_sync2 feed_header feed_payload feed_ck_a feed_ck_b feed_end1
    feed_end2
dispatch-reset State.sync1 d b h = ground arith
dispatch-reset _ d b h = ground arith

-- A byte that yields a frame or an error leaves the deframer as new.
pub feed_result_new :
    (d : Deframer) (b : ℕ) {r : Result Frame FrameError}
    → (feed d b).1 ≡ some r
    → (feed d b).0 ≡ new
unfolding feed
feed_result_new d b h = dispatch-reset d.state d b h
