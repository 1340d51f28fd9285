-- ===== src/Config.antt =====
-- The configuration and its defaults (src/config.rs). Parsing the TOML file is the crates
-- `toml` and `serde`.
use web3_pi_ups_service.Prelude.{
  ℕ, Bool, true, false, if◌then◌else◌, Option, none, some, List, [], ◌∷◌, Text, ascii, Result, ok,
  err, ◌>>=◌,
}

pub record SerialConfig : Type 0 where
  pub port : Text
  pub baud_rate : ℕ

pub record BatteryConfig : Type 0 where
  pub shutdown_threshold_pct : ℕ
  pub shutdown_cancel_margin_pct : ℕ
  pub input_min_valid_mv : ℕ
  pub input_max_valid_mv : ℕ

pub record ShutdownConfig : Type 0 where
  pub script_path : Text
  pub delay_seconds : ℕ

pub record HostMetricsConfig : Type 0 where
  pub interval_seconds : ℕ

pub record CommandsConfig : Type 0 where
  pub allow_service_restart : Bool
  pub service_whitelist : List Text

pub record EthClientsConfig : Type 0 where
  pub execution : Text
  pub consensus : Text
  pub validator : Text

pub record IpcConfig : Type 0 where
  pub socket_path : Text

pub record LoggingConfig : Type 0 where
  pub level : Text
  pub journald : Bool

pub record Config : Type 0 where
  pub serial : SerialConfig
  pub battery : BatteryConfig
  pub shutdown : ShutdownConfig
  pub host_metrics : HostMetricsConfig
  pub commands : CommandsConfig
  pub eth_clients : EthClientsConfig
  pub ipc : IpcConfig
  pub logging : LoggingConfig

abbrev pub default_cancel_margin : ℕ
default_cancel_margin = 5

abbrev pub default_host_metrics : HostMetricsConfig
default_host_metrics = record { interval_seconds = 30 }

abbrev pub default_commands : CommandsConfig
default_commands = record {
  allow_service_restart = true;
  service_whitelist = ascii "geth" ∷ ascii "nimbus-beacon-node" ∷ ascii "nimbus-validator" ∷ [];
}

abbrev pub default_eth_clients : EthClientsConfig
default_eth_clients = record {
  execution = ascii "geth";
  consensus = ascii "nimbus-beacon-node";
  validator = ascii "nimbus-validator";
}

abbrev pub default_ipc : IpcConfig
default_ipc = record { socket_path = ascii "/run/w3p-ups/agent.sock" }

abbrev pub default_logging : LoggingConfig
default_logging = record { level = ascii "info"; journald = false }

abbrev pub default_config : Config
default_config = record {
  serial = record { port = ascii "auto"; baud_rate = 115200 };
  battery = record {
    shutdown_threshold_pct = 10;
    shutdown_cancel_margin_pct = 5;
    input_min_valid_mv = 8000;
    input_max_valid_mv = 26000;
  };
  shutdown = record { script_path = ascii "/etc/w3p-ups/shutdown.sh"; delay_seconds = 30 };
  host_metrics = default_host_metrics;
  commands = default_commands;
  eth_clients = default_eth_clients;
  ipc = default_ipc;
  logging = default_logging;
}

abbrev pub default_config_path : Text
default_config_path = ascii "/etc/w3p-ups/config.toml"

pub data LoadError : Type 0 where
  not_read not_parsed : LoadError

abbrev pub or_error {ℓ} : {A : Type ℓ} → LoadError → Option A → Result A LoadError
or_error e none = err e
or_error e (some a) = ok a

-- Whether a path exists, what is read from it, and the parser of the crate `toml` are parameters.
unfoldable pub load :
    (Text → Bool) → (Text → Option Text) → (Text → Option Config) → Text → Result Config LoadError
load exists read_to_string from_str path =
    let content = or_error not_read (read_to_string path) in
    let parsed = content >>= λ text. or_error not_parsed (from_str text) in
    if exists path then parsed else ok default_config
