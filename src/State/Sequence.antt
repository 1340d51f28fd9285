-- ===== src/State/Sequence.antt =====
-- Outbound sequence numbers (src/state.rs).
use web3_pi_ups_service.Prelude.{
  ℕ, suc, ◌+◌, ◌%◌, ◌<◌, ◌≡◌, refl, ◌==◌, if◌then◌else◌, List, [], ◌∷◌, lookup, lookup-insert,
  arith,
}
use mathlib.Core.Option
use web3_pi_ups_service.State.{TxSeq, next_for}

-- The numbers handed out for a sequence of destinations, and the counters behind them.
abbrev pub next_for_each : TxSeq → List ℕ → List ℕ × TxSeq
next_for_each q [] = ([], q)
next_for_each q (dst ∷ dsts) =
    let first = next_for q dst in
    let rest = next_for_each first.1 dsts in (first.0 ∷ rest.0, rest.1)

-- How often a destination stands in a list.
abbrev pub count : ℕ → List ℕ → ℕ
count dst [] = 0
count dst (d ∷ dsts) = let rest = count dst dsts in if d == dst then suc rest else rest

-- The number that the next frame to a destination gets.
abbrev pub upcoming : TxSeq → ℕ → ℕ
upcoming q dst = (next_for q dst).0

pub upcoming-next_for :
    (q : TxSeq) (dst other : ℕ)
    → upcoming (next_for q dst).1 other
      ≡ (if dst == other then (upcoming q other + 1) % 256 else upcoming q other)
unfolding next_for
upcoming-next_for q dst other =
    rw (lookup-insert dst other ((Option.get_or (lookup dst q.next) 0 + 1) % 256) q.next)
      (ground arith)

upcoming-next_for_each :
    (q : TxSeq) (dsts : List ℕ) (dst : ℕ)
    → upcoming q dst < 256
    → upcoming (next_for_each q dsts).1 dst ≡ (upcoming q dst + count dst dsts) % 256
upcoming-next_for_each q [] dst h = omega arith
upcoming-next_for_each q (d ∷ dsts) dst h =
    let step = upcoming-next_for q d dst in
    ground (arith, step, upcoming-next_for_each (next_for q d).1 dsts dst)

-- From empty counters on, the next sequence number of a destination is the number of those handed
-- out for that destination before, modulo 256, whatever was handed out for others in between.
pub upcoming-count :
    (dsts : List ℕ) (dst : ℕ)
    → upcoming (next_for_each (record { next = [] }) dsts).1 dst ≡ count dst dsts % 256
upcoming-count dsts dst =
    let q : TxSeq = record { next = [] } in
    let zero_first : upcoming q dst ≡ 0 = unfold next_for in refl in
    omega (arith, zero_first, upcoming-next_for_each q dsts dst (omega (arith, zero_first)))
