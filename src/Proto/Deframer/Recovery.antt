-- ===== src/Proto/Deframer/Recovery.antt =====
-- The deframer finds its way back to the stream (src/proto/deframer.rs).
use web3_pi_ups_service.Prelude.{
  ℕ, ◌≤◌, ◌<◌, ◌≡◌, ◌≢◌, ◌⊎◌, inl, inr, refl, ap, ◌∙◌, Option-cases, List, [], ◌∷◌, ◌++◌, length,
  Result, ok, err, arith,
}
use web3_pi_ups_service.Proto
use web3_pi_ups_service.Proto.{max_payload}
use web3_pi_ups_service.Proto.Frame.{Frame, FrameError}
use web3_pi_ups_service.Proto.Frame.Wire.{wire}
use web3_pi_ups_service.Proto.Deframer.{
  State, Deframer, push_result, new, feed_sync1, feed_sync2, feed, feed_slice, dispatch,
}
use web3_pi_ups_service.Proto.Deframer.Complete.{feed_slice-append}
use web3_pi_ups_service.Proto.Deframer.Invariant.{IsWellFormed, feed-IsWellFormed, feed_result_new}
use web3_pi_ups_service.Proto.Deframer.Progress.{
  IsActive, left, feed-left, left_positive, left_bound,
}
use web3_pi_ups_service.Proto.Deframer.Sound.{frames, feed-ok_end}
use web3_pi_ups_service.Proto.Deframer.Stream.{IsNoise, feed_slice-wire}

-- The deframer waits for a frame to begin.
abbrev IsIdle : Deframer → Type 0
IsIdle d = d.state ≡ State.sync1

state-cases : (s : State) → (s ≡ State.sync1) ⊎ ((s ≡ State.sync2) ⊎ IsActive s)
state-cases State.sync1 = inl refl
state-cases State.sync2 = inr (inl refl)
state-cases State.header = inr (inr tt)
state-cases State.payload = inr (inr tt)
state-cases State.ck_a = inr (inr tt)
state-cases State.ck_b = inr (inr tt)
state-cases State.end1 = inr (inr tt)
state-cases State.end2 = inr (inr tt)

module _ (d : Deframer) (b : ℕ) (quiet : b ≢ Proto.sync1) where
  stays_byte : IsIdle d → IsIdle (feed d b).0
  unfolding feed dispatch feed_sync1
  stays_byte h = rw h (ground (arith, h))

  half_byte : d.state ≡ State.sync2 → IsIdle (feed d b).0 ⊎ (left (feed d b).0 < left d)
  unfolding feed dispatch feed_sync2
  half_byte h = rw h (ground arith)

  -- A byte other than 0xAA leaves the deframer idle, or closer to the end of what has begun.
  noise_byte : IsWellFormed d → IsIdle (feed d b).0 ⊎ (left (feed d b).0 < left d)
  noise_byte h = elim (state-cases d.state) [
    | inl idle ↦ inl (stays_byte idle)
    | inr (inl half) ↦ half_byte half
    | inr (inr active) ↦ elim (Option-cases (feed d b).1) [
      | inl silent ↦ inr (feed-left d b h active silent).1
      | inr (r, result) ↦
          inl (ap (λ e. e.state) (feed_result_new d b result) ∙ (unfold new in refl))
    ]
  ]

  -- No frame ends with it.
  noise_output :
      (rs : List (Result Frame FrameError)) → frames (push_result (feed d b).1 rs) ≡ frames rs
  noise_output rs = elim (Option-cases (feed d b).1) [
    | inl silent ↦ rw silent refl
    | inr (ok f, result) ↦ absurd (quiet (feed-ok_end d b f result))
    | inr (err e, result) ↦ rw result refl
  ]

stays_noise :
    (d : Deframer) (noise : List ℕ) → IsIdle d → IsNoise noise → IsIdle (feed_slice d noise).0
unfolding feed_slice
stays_noise d [] h quiet = h
stays_noise d (b ∷ noise) h (quiet, quiets) =
    stays_noise (feed d b).0 noise (stays_byte d b quiet h) quiets

settles :
    (d : Deframer) (noise : List ℕ)
    → IsWellFormed d
    → IsNoise noise
    → left d ≤ length noise
    → IsIdle (feed_slice d noise).0
unfolding feed_slice
settles d [] h quiet l = absurd (omega (arith, left_positive d h))
settles d (b ∷ noise) h (quiet, quiets) l = elim (noise_byte d b quiet h) [
  | inl idle ↦ stays_noise (feed d b).0 noise idle quiets
  | inr closer ↦ settles (feed d b).0 noise (feed-IsWellFormed d b h) quiets (omega arith)
]

no_frames : (d : Deframer) (noise : List ℕ) → IsNoise noise → frames (feed_slice d noise).1 ≡ []
unfolding feed_slice
no_frames d [] quiet = refl
no_frames d (b ∷ noise) (quiet, quiets) =
    noise_output d b quiet _ ∙ no_frames (feed d b).0 noise quiets

-- Whatever the deframer was in the middle of, 253 bytes without 0xAA bring it back: they yield no
-- frame, and of the next frame that the line carries nothing is lost.
pub feed_slice_recovers :
    (d : Deframer) (noise : List ℕ) (f : Frame)
    → IsWellFormed d
    → IsNoise noise
    → 253 ≤ length noise
    → length f.payload ≤ max_payload
    → (frames (feed_slice d noise).1 ≡ [])
      × (feed_slice d (noise ++ wire f) ≡ (new, (feed_slice d noise).1 ++ (ok f ∷ [])))
feed_slice_recovers d noise f h quiet long fits =
    let idle = settles d noise h quiet (omega (arith, left_bound d h)) in
    let found = feed_slice-wire (feed_slice d noise).0 f (inl idle) fits in
    (
      no_frames d noise quiet,
      feed_slice-append d noise (wire f) ∙ ap (λ r. (r.0, (feed_slice d noise).1 ++ r.1)) found,
    )
