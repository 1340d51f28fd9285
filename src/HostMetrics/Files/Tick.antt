-- ===== src/HostMetrics/Files/Tick.antt =====
-- Ticks of the host metrics task on a machine (src/host_metrics/).
use web3_pi_ups_service.Prelude.{ℕ, ◌≡◌, Option, some, List, [], ◌∷◌, ok}
use mathlib.Core.Option
use web3_pi_ups_service.Config.{EthClientsConfig}
use web3_pi_ups_service.HostMetrics.Eth.{unpack, unit_state}
use web3_pi_ups_service.HostMetrics.Files.{Machine}
use web3_pi_ups_service.HostMetrics.Tick.{Ticked}
use web3_pi_ups_service.Proto.Addr
use web3_pi_ups_service.Proto.Class
use web3_pi_ups_service.Proto.Flag
use web3_pi_ups_service.Proto.Op
use web3_pi_ups_service.Proto.Payloads.HostStatusV1
use web3_pi_ups_service.Proto.Payloads.HostStatusV1.{HostStatusV1}
use web3_pi_ups_service.State.{State}
use web3_pi_ups_service.World.{sent}

-- What a tick on machine `m` sends and stores, with sequence number `seq`: a `host.status` event from
-- the host to the RP2040, and a status that its payload decodes to.
pub record IsReported (m : Machine) (eth_cfg : EthClientsConfig) (seq mem cpu rx tx : ℕ)
    (after : Ticked) : Type 0 where
  pub payload : List ℕ
  pub status : HostStatusV1
  pub sends :
      after.effects
      ≡ sent (record {
        dst = Addr.rp2040;
        src = Addr.rpi;
        class = Class.host;
        op = Op.Host.status;
        flags = Flag.event;
        seq = seq;
        payload = payload;
      })
        ∷ []
  pub decodes : HostStatusV1.decode payload ≡ ok status
  pub shows_mem : status.mem_used_pct ≡ mem
  pub shows_units : unpack status.eth_client_state ≡ (
    unit_state m.is_active eth_cfg.execution,
    unit_state m.is_active eth_cfg.consensus,
    unit_state m.is_active eth_cfg.validator,
  )
  pub stores : after.state.inner.last_host ≡ some status
  pub stores_cpu : after.state.inner.cpu_usage_pct ≡ some cpu
  pub stores_rx : after.state.inner.net_rx_bytes_per_s ≡ some rx
  pub stores_tx : after.state.inner.net_tx_bytes_per_s ≡ some tx
