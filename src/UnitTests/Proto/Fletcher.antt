-- ===== src/UnitTests/Proto/Fletcher.antt =====
-- The tests of the checksum (src/proto/fletcher.rs, module tests).
use web3_pi_ups_service.Prelude.{◌≡◌, refl, [], ◌∷◌}
use web3_pi_ups_service.Proto.Fletcher.{fletcher8, fletcher8_loop}

abbrev EmptyInputYieldsZero : Type 0
EmptyInputYieldsZero = fletcher8 [] ≡ (0, 0)

empty_input_yields_zero : EmptyInputYieldsZero
unfolding fletcher8 fletcher8_loop
empty_input_yields_zero = refl

abbrev SingleByte : Type 0
SingleByte = (fletcher8 (0x01 ∷ []) ≡ (0x01, 0x01)) × (fletcher8 (0xff ∷ []) ≡ (0xff, 0xff))

single_byte : SingleByte
unfolding fletcher8 fletcher8_loop
single_byte = (refl, refl)

abbrev TwoBytes : Type 0
TwoBytes = fletcher8 (0x01 ∷ 0x02 ∷ []) ≡ (3, 4)

two_bytes : TwoBytes
unfolding fletcher8 fletcher8_loop
two_bytes = refl

abbrev RpiPingsCh32xSpecExample : Type 0
RpiPingsCh32xSpecExample =
    let buf = 0x03 ∷ 0x01 ∷ 0x01 ∷ 0x01 ∷ 0x01 ∷ 0x42 ∷ 0x00 ∷ 0x00 ∷ [] in
    fletcher8 buf ≡ (0x49, 0xf4)

rpi_pings_ch32x_spec_example : RpiPingsCh32xSpecExample
unfolding fletcher8 fletcher8_loop
rpi_pings_ch32x_spec_example = refl

abbrev WrapsAt256 : Type 0
WrapsAt256 = fletcher8 (0xff ∷ 0xff ∷ 0xff ∷ 0xff ∷ []) ≡ (0xfc, 0xf6)

wraps_at_256 : WrapsAt256
unfolding fletcher8 fletcher8_loop
wraps_at_256 = refl
