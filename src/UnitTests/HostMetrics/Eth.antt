-- ===== src/UnitTests/HostMetrics/Eth.antt =====
-- The tests of the packed client states (src/host_metrics/eth.rs, module tests).
use web3_pi_ups_service.Prelude.{◌≡◌, refl, ℕ, [], ◌∷◌, All, List, ascii, arith}
use web3_pi_ups_service.HostMetrics.Eth.{
  st_unknown, st_running, st_stopped, st_failed, pack, unpack, state_name,
}

-- `0..=3`
abbrev states : List ℕ
states = 0 ∷ 1 ∷ 2 ∷ 3 ∷ []

abbrev PackUnpackRoundTrip : Type 0
PackUnpackRoundTrip =
    All (λ e. All (λ c. All (λ v. unpack (pack e c v) ≡ (e, c, v)) states) states) states

pack_unpack_round_trip : PackUnpackRoundTrip
unfolding pack unpack
pack_unpack_round_trip = ground arith

abbrev ReservedBitsStayZero : Type 0
ReservedBitsStayZero = pack 3 3 3 ≡ 63

reserved_bits_stay_zero : ReservedBitsStayZero
unfolding pack
reserved_bits_stay_zero = refl

-- The dash is U+2014, in UTF-8.
abbrev Names : Type 0
Names =
    (state_name st_running ≡ ascii "running")
    × (state_name st_stopped ≡ ascii "stopped")
    × (state_name st_failed ≡ ascii "failed")
    × (state_name st_unknown ≡ 226 ∷ 128 ∷ 148 ∷ [])

names : Names
unfolding state_name
names = (refl, refl, refl, refl)
