-- ===== src/Ipc.antt =====
-- The snapshots that the IPC server answers with, and its client loop (src/ipc.rs). Sockets and
-- JSON are the crates `tokio` and `serde_json`; a request arrives as what `serde_json` makes of it.
pub mod Alert
pub mod Server
use web3_pi_ups_service.Prelude.{
  ℕ, ◌-◌, ◌/◌, ◌%◌, ◌^◌, Bool, true, false, if◌then◌else◌, Option, none, some, List, [], ◌∷◌, ◌++◌,
  Text, ascii, Result, ok, err,
}
use mathlib.Core.Option.{map}
use web3_pi_ups_service.Prelude.Int.{ℤ}
use web3_pi_ups_service.HostMetrics.Sample.{NetTotals}
use web3_pi_ups_service.Proto.Payloads.HostStatusV1.{HostStatusV1}
use web3_pi_ups_service.Proto.Payloads.NetStatusV1.{NetStatusV1}
use web3_pi_ups_service.Proto.Payloads.PowerStatusV1.{PowerStatusV1}
use web3_pi_ups_service.Soc.{pack_mv_to_soc_pct}
use web3_pi_ups_service.ShutdownSm.{is_on_battery}
use web3_pi_ups_service.State.{AgentState, State, snapshot}

pub data Request : Type 0 where
  get_snapshot subscribe get_version : Request

pub record PowerSnapshot : Type 0 where
  pub age_ms : Option ℕ
  pub charge_state : ℕ
  pub vbus_in_mv : ℕ
  pub vbus_out_mv : ℕ
  pub ibus_out_ma : ℤ
  pub vbat_mv : ℕ
  pub ibat_ma : ℤ
  pub soc_pct : ℕ
  pub on_battery : Bool
  pub temp_dc : ℤ
  pub pd_contract_mv : ℕ
  pub pd_contract_ma : ℕ
  pub faults : ℕ

pub record NetSnapshot : Type 0 where
  pub age_ms : Option ℕ
  pub state : ℕ
  pub rssi_dbm : ℤ
  pub rsrp_dbm : ℤ
  pub rsrq_db : ℤ
  pub bytes_tx : ℕ
  pub bytes_rx : ℕ

pub record HostSnapshot : Type 0 where
  pub age_ms : Option ℕ
  pub cpu_temp_dc : ℤ
  pub cpu_usage_pct : Option ℕ
  pub load_avg_x100 : ℕ
  pub mem_used_pct : ℕ
  pub disk_used_pct : ℕ
  pub uptime_s : ℕ
  pub net_bytes_rx_total : Option ℕ
  pub net_bytes_tx_total : Option ℕ
  pub net_rx_bytes_per_s : Option ℕ
  pub net_tx_bytes_per_s : Option ℕ
  pub eth_client_state : ℕ

pub record SnapshotMsg : Type 0 where
  pub unix_ts_ms : ℕ
  pub power : Option PowerSnapshot
  pub net : Option NetSnapshot
  pub host : Option HostSnapshot
  pub last_power_event : Option ℕ
  pub shutdown_pending_for_s : Option ℕ

pub data Reply : Type 0 where
  snapshot_reply : SnapshotMsg → Reply
  version_reply : Text → Reply
  error_reply : Text → Reply

pub record OnBattCfg : Type 0 where
  pub min_mv : ℕ
  pub max_mv : ℕ

-- The monotonic clock in nanoseconds, and the system clock in milliseconds since 1970, `none`
-- before. The source reads the monotonic clock twice, here it is read once.
pub record Clock : Type 0 where
  pub now : ℕ
  pub unix_ms : Option ℕ

-- `as u64`
abbrev pub as_u64 : ℕ → ℕ
as_u64 n = n % 18446744073709551616

-- `now.saturating_duration_since(t).as_millis() as u64`
abbrev pub age : ℕ → ℕ → ℕ
age now t = as_u64 ((now - t) / 1_000_000)

unfoldable pub make_power : PowerStatusV1 → Option ℕ → ℕ → OnBattCfg → PowerSnapshot
make_power p at now cfg = record {
  age_ms = map (age now) at;
  charge_state = p.charge_state;
  vbus_in_mv = p.vbus_in_mv;
  vbus_out_mv = p.vbus_out_mv;
  ibus_out_ma = p.ibus_out_ma;
  vbat_mv = p.vbat_mv;
  ibat_ma = p.ibat_ma;
  soc_pct = pack_mv_to_soc_pct p.vbat_mv;
  on_battery = is_on_battery p.vbus_in_mv cfg.min_mv cfg.max_mv;
  temp_dc = p.temp_dc;
  pd_contract_mv = p.pd_contract_mv;
  pd_contract_ma = p.pd_contract_ma;
  faults = p.faults;
}

unfoldable pub make_net : NetStatusV1 → Option ℕ → ℕ → NetSnapshot
make_net n at now = record {
  age_ms = map (age now) at;
  state = n.state;
  rssi_dbm = n.rssi_dbm;
  rsrp_dbm = n.rsrp_dbm;
  rsrq_db = n.rsrq_db;
  bytes_tx = n.bytes_tx;
  bytes_rx = n.bytes_rx;
}

unfoldable pub make_host : HostStatusV1 → AgentState → ℕ → HostSnapshot
make_host h snap now = record {
  age_ms = map (age now) snap.last_host_at;
  cpu_temp_dc = h.cpu_temp_dc;
  cpu_usage_pct = snap.cpu_usage_pct;
  load_avg_x100 = h.load_avg_x100;
  mem_used_pct = h.mem_used_pct;
  disk_used_pct = h.disk_used_pct;
  uptime_s = h.uptime_s;
  net_bytes_rx_total = map (λ (n : NetTotals). n.bytes_rx) snap.net_totals;
  net_bytes_tx_total = map (λ (n : NetTotals). n.bytes_tx) snap.net_totals;
  net_rx_bytes_per_s = snap.net_rx_bytes_per_s;
  net_tx_bytes_per_s = snap.net_tx_bytes_per_s;
  eth_client_state = h.eth_client_state;
}

unfoldable pub build_snapshot : Clock → AgentState → OnBattCfg → SnapshotMsg
unfolding make_power make_net make_host
build_snapshot clock snap cfg = record {
  unix_ts_ms = elim clock.unix_ms [ none ↦ 0 | some ms ↦ as_u64 ms ];
  power = map (λ p. make_power p snap.last_power_at clock.now cfg) snap.last_power;
  net = map (λ n. make_net n snap.last_net_at clock.now) snap.last_net;
  host = map (λ h. make_host h snap clock.now) snap.last_host;
  last_power_event = snap.last_power_event;
  shutdown_pending_for_s = map (λ t. (clock.now - t) / 1_000_000_000) snap.shutdown_pending_since;
}

-- What wakes the loop of a client: a line, with the request in it or the error of `serde_json`,
-- the end of the stream or an error on it, or a tick of the subscription.
pub data Wake : Type 0 where
  line : Result Request Text → Wake
  closed failed ticked : Wake

unfoldable pub send_snapshot : Clock → State → OnBattCfg → Reply
unfolding build_snapshot snapshot
send_snapshot clock s cfg = snapshot_reply (build_snapshot clock (snapshot s) cfg)

-- `env!("CARGO_PKG_VERSION")` is a parameter.
unfoldable pub answer : Text → Clock → State → OnBattCfg → Result Request Text → Reply
unfolding send_snapshot
answer version clock s cfg (ok get_snapshot) = send_snapshot clock s cfg
answer version clock s cfg (ok subscribe) = send_snapshot clock s cfg
answer version clock s cfg (ok get_version) = version_reply version
answer version clock s cfg (err e) = error_reply (ascii "bad request: " ++ e)

-- Whether the ticker runs after a line.
abbrev pub subscribes : Bool → Result Request Text → Bool
subscribes subscribed (ok subscribe) = true
subscribes subscribed _ = subscribed

-- The client loop, with the clock and the state that each wake-up meets. Without a subscription
-- the tick channel yields nothing, so that such a tick is passed over.
unfoldable pub handle_client : Text → OnBattCfg → List (Wake × Clock × State) → Bool → List Reply
unfolding answer send_snapshot
handle_client version cfg [] subscribed = []
handle_client version cfg ((line req, clock, s) ∷ wakes) subscribed =
    answer version clock s cfg req ∷ handle_client version cfg wakes (subscribes subscribed req)
handle_client version cfg ((closed, clock, s) ∷ wakes) subscribed = []
handle_client version cfg ((failed, clock, s) ∷ wakes) subscribed = []
handle_client version cfg ((ticked, clock, s) ∷ wakes) subscribed =
    let rest = handle_client version cfg wakes subscribed in
    if subscribed then send_snapshot clock s cfg ∷ rest else rest
