-- ===== src/UnitTests/Commands.antt =====
-- The tests of the whitelist (src/commands.rs, module tests).
use web3_pi_ups_service.Prelude.{◌≡◌, refl, Bool, true, false, List, [], ◌∷◌, Text, ascii}
use web3_pi_ups_service.Commands
use web3_pi_ups_service.Commands.{CommandsHandler, contains}
use web3_pi_ups_service.Config.{CommandsConfig}

abbrev cfg : Bool → List Text → CommandsConfig
cfg allow list = record { allow_service_restart = allow; service_whitelist = list }

abbrev make_handler : CommandsConfig → CommandsHandler
make_handler commands =
    Commands.new commands (record { script_path = ascii "/nonexistent"; delay_seconds = 0 })

abbrev WhitelistBuiltFromConfig : Type 0
WhitelistBuiltFromConfig =
    let h = make_handler (cfg true (ascii "w3p_geth" ∷ ascii "nimbus-validator" ∷ [])) in
    (contains h.whitelist (ascii "w3p_geth") ≡ true)
    × (contains h.whitelist (ascii "nimbus-validator") ≡ true)
    × (contains h.whitelist (ascii "ssh") ≡ false)

whitelist_built_from_config : WhitelistBuiltFromConfig
unfolding contains
whitelist_built_from_config = (refl, refl, refl)

abbrev EmptyWhitelistWhenUnconfigured : Type 0
EmptyWhitelistWhenUnconfigured = (make_handler (cfg true [])).whitelist ≡ []

empty_whitelist_when_unconfigured : EmptyWhitelistWhenUnconfigured
empty_whitelist_when_unconfigured = refl
