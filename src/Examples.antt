-- ===== src/Examples.antt =====
-- Concrete frames, states and environments, and the theorems at them.
pub mod Wire
pub mod Battery
pub mod Requests
pub mod Agent
pub mod Metrics
pub mod Ticks
pub mod Client
pub mod Line
pub mod Payloads
pub mod Together
use web3_pi_ups_service.Prelude.{
  ℕ, ◌*◌, Bool, true, false, Option, none, some, List, [], ◌∷◌, Text, ascii,
}
use web3_pi_ups_service.Prelude.Int.{pos, negsuc}
use web3_pi_ups_service.Config
use web3_pi_ups_service.Config.{BatteryConfig, ShutdownConfig}
use web3_pi_ups_service.Commands
use web3_pi_ups_service.Commands.{CommandsHandler}
use web3_pi_ups_service.Proto.Frame.{Frame}
use web3_pi_ups_service.Proto.Payloads.PowerStatusV1
use web3_pi_ups_service.Proto.Payloads.PowerStatusV1.{PowerStatusV1}
use web3_pi_ups_service.State
use web3_pi_ups_service.State.{State}
use web3_pi_ups_service.World.{Env}

-- A frame whose payload holds the sync bytes.
abbrev pub tricky : Frame
tricky = record {
  dst = 1;
  src = 2;
  class = 2;
  op = 16;
  flags = 4;
  seq = 7;
  payload = 170 ∷ 85 ∷ 3 ∷ [];
}

abbrev pub ping : Frame
ping = record { dst = 1; src = 4; class = 1; op = 1; flags = 1; seq = 255; payload = [] }

-- The encoding of `ping`.
abbrev pub ping_bytes : List ℕ
ping_bytes = 170 ∷ 85 ∷ 1 ∷ 4 ∷ 1 ∷ 1 ∷ 1 ∷ 255 ∷ 0 ∷ 0 ∷ 7 ∷ 48 ∷ 85 ∷ 170 ∷ []

abbrev pub battery : BatteryConfig
battery = Config.default_config.battery

abbrev pub shutdown : ShutdownConfig
shutdown = Config.default_config.shutdown

abbrev pub handler : CommandsHandler
handler = Commands.new Config.default_commands shutdown

-- The world at some second, with a script that can be started.
abbrev pub at_second : ℕ → Env
at_second n = record {
  now = n * 1_000_000_000;
  channel_open = true;
  exists = λ path. true;
  spawn_ok = λ command. true;
  exit_ok = λ command. some true;
}

abbrev pub power_at : ℕ → ℕ → PowerStatusV1
power_at vbus vbat = record {
  charge_state = 2;
  vbus_in_mv = vbus;
  vbus_out_mv = 5100;
  ibus_out_ma = pos 800;
  vbat_mv = vbat;
  ibat_ma = negsuc 1199;
  temp_dc = pos 251;
  pd_contract_mv = 15000;
  pd_contract_ma = 3000;
  faults = 0;
}

-- No supply, and a pack of 6.5 V.
abbrev pub low_power : PowerStatusV1
low_power = power_at 0 6500

abbrev pub state_with : PowerStatusV1 → Option ℕ → State
state_with p since = record {
  inner = record State.default_agent_state { last_power = some p; shutdown_pending_since = since };
  tx_seq = record { next = [] };
}
