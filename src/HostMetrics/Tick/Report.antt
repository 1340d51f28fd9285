-- ===== src/HostMetrics/Tick/Report.antt =====
-- What a tick reports and stores (src/host_metrics/mod.rs).
use web3_pi_ups_service.Prelude.{ℕ, ◌<◌, ◌≡◌, refl, true, Option, some, List, [], ◌∷◌, ok, arith}
use mathlib.Core.Option
use web3_pi_ups_service.Prelude.Int.{pos, IsI16}
use web3_pi_ups_service.Config.{EthClientsConfig}
use web3_pi_ups_service.HostMetrics.Eth.{unpack-pack, read_packed_state}
use web3_pi_ups_service.HostMetrics.Tick.{Readings, Previous, status_of, status_frame, tick}
use web3_pi_ups_service.Proto.Addr
use web3_pi_ups_service.Proto.Payloads.HostStatusV1
use web3_pi_ups_service.Proto.Payloads.HostStatusV1.{HostStatusV1, host_status_v1_round_trip}
use web3_pi_ups_service.State.{State, next_for, next_seq, update_host_sample}
use web3_pi_ups_service.World.{Env, sent}

-- What the readers return fits their types.
pub record IsReading (r : Readings) : Type 0 where
  pub temp_i16 : IsI16 (Option.get_or r.temp (pos 0))
  pub mem_u8 : Option.get_or r.mem 0 < 256
  pub disk_u8 : Option.get_or r.disk 0 < 256
  pub load_u16 : Option.get_or r.load 0 < 65536
  pub uptime_u32 : Option.get_or r.uptime 0 < 4294967296

read_packed_state_lt :
    (is_active : List ℕ → Option (List ℕ)) (cfg : EthClientsConfig)
    → read_packed_state is_active cfg < 64
unfolding read_packed_state
read_packed_state_lt is_active cfg = (unpack-pack _ _ _).1

pub status_of-InRange :
    (eth_cfg : EthClientsConfig) (r : Readings)
    → IsReading r
    → HostStatusV1.InRange (status_of eth_cfg r)
status_of-InRange eth_cfg r h = record {
  eth_client_state = omega (arith, read_packed_state_lt r.is_active eth_cfg);
  cpu_temp_dc = h.temp_i16;
  mem_used_pct = h.mem_u8;
  disk_used_pct = h.disk_u8;
  load_avg_x100 = h.load_u16;
  uptime_s = h.uptime_u32;
}

-- While the outbound channel is open, a tick sends one frame: a `host.status` event to the RP2040
-- with the next sequence number for it. Its payload decodes to the very status that the
-- tick stores with the time, where the readings fit their types. The pending shutdown and
-- the device's telemetry stay as they are.
pub tick-report :
    (interval : ℕ) (eth_cfg : EthClientsConfig) (env : Env) (r : Readings) (prev : Previous)
    (s : State)
    → env.channel_open ≡ true
    → IsReading r
    → let t = tick interval eth_cfg env r prev s in
      let status = status_of eth_cfg r in
      let frame = status_frame status (next_for s.tx_seq Addr.rp2040).0 in
      (t.effects ≡ sent frame ∷ [])
      × (HostStatusV1.decode frame.payload ≡ ok status)
      × (t.state.inner.last_host ≡ some status)
      × (t.state.inner.last_host_at ≡ some env.now)
      × (t.state.tx_seq ≡ (next_for s.tx_seq Addr.rp2040).1)
      × (t.state.inner.shutdown_pending_since ≡ s.inner.shutdown_pending_since)
      × (t.state.inner.last_power ≡ s.inner.last_power)
      × (t.state.inner.last_net ≡ s.inner.last_net)
unfolding tick update_host_sample next_seq
tick-report interval eth_cfg env r prev s is_open h = (
  rw is_open,
  (host_status_v1_round_trip (status_of eth_cfg r) (status_of-InRange eth_cfg r h)).0,
  refl,
  refl,
  refl,
  refl,
  refl,
  refl,
)
