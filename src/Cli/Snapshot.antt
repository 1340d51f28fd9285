-- ===== src/Cli/Snapshot.antt =====
-- What the client reads from the daemon's JSON lines (src/cli.rs).
use web3_pi_ups_service.Prelude.{ℕ, Bool, Option, Text}
use mathlib.Core.Option.{map}
use web3_pi_ups_service.Prelude.Int.{ℤ}
use web3_pi_ups_service.Ipc

pub data Request : Type 0 where
  ask_snapshot ask_subscribe : Request

pub record PowerSnap : Type 0 where
  pub age_ms : Option ℕ
  pub charge_state : ℕ
  pub vbus_in_mv : ℕ
  pub vbus_out_mv : ℕ
  pub ibus_out_ma : ℤ
  pub vbat_mv : ℕ
  pub ibat_ma : ℤ
  pub soc_pct : ℕ
  pub on_battery : Bool
  pub temp_dc : ℤ
  pub faults : ℕ

pub record NetSnap : Type 0 where
  pub age_ms : Option ℕ
  pub state : ℕ
  pub rssi_dbm : ℤ
  pub rsrp_dbm : ℤ
  pub rsrq_db : ℤ
  pub bytes_tx : ℕ
  pub bytes_rx : ℕ

pub record HostSnap : Type 0 where
  pub age_ms : Option ℕ
  pub cpu_temp_dc : ℤ
  pub cpu_usage_pct : Option ℕ
  pub load_avg_x100 : ℕ
  pub mem_used_pct : ℕ
  pub disk_used_pct : ℕ
  pub uptime_s : ℕ
  pub net_bytes_rx_total : Option ℕ
  pub net_bytes_tx_total : Option ℕ
  pub net_rx_bytes_per_s : Option ℕ
  pub net_tx_bytes_per_s : Option ℕ
  pub eth_client_state : ℕ

pub record SnapshotMsg : Type 0 where
  pub unix_ts_ms : ℕ
  pub power : Option PowerSnap
  pub net : Option NetSnap
  pub host : Option HostSnap
  pub last_power_event : Option ℕ
  pub shutdown_pending_for_s : Option ℕ

pub data Reply : Type 0 where
  snapshot : SnapshotMsg → Reply
  version : Text → Reply
  error : Text → Reply

-- What the daemon's structs are on the client's side, field by field of the same name. The
-- contract of the power supply's input is not among the client's fields.
abbrev pub power_by_name : Ipc.PowerSnapshot → PowerSnap
power_by_name p = record {
  age_ms = p.age_ms;
  charge_state = p.charge_state;
  vbus_in_mv = p.vbus_in_mv;
  vbus_out_mv = p.vbus_out_mv;
  ibus_out_ma = p.ibus_out_ma;
  vbat_mv = p.vbat_mv;
  ibat_ma = p.ibat_ma;
  soc_pct = p.soc_pct;
  on_battery = p.on_battery;
  temp_dc = p.temp_dc;
  faults = p.faults;
}

abbrev pub net_by_name : Ipc.NetSnapshot → NetSnap
net_by_name n = record {
  age_ms = n.age_ms;
  state = n.state;
  rssi_dbm = n.rssi_dbm;
  rsrp_dbm = n.rsrp_dbm;
  rsrq_db = n.rsrq_db;
  bytes_tx = n.bytes_tx;
  bytes_rx = n.bytes_rx;
}

abbrev pub host_by_name : Ipc.HostSnapshot → HostSnap
host_by_name h = record {
  age_ms = h.age_ms;
  cpu_temp_dc = h.cpu_temp_dc;
  cpu_usage_pct = h.cpu_usage_pct;
  load_avg_x100 = h.load_avg_x100;
  mem_used_pct = h.mem_used_pct;
  disk_used_pct = h.disk_used_pct;
  uptime_s = h.uptime_s;
  net_bytes_rx_total = h.net_bytes_rx_total;
  net_bytes_tx_total = h.net_bytes_tx_total;
  net_rx_bytes_per_s = h.net_rx_bytes_per_s;
  net_tx_bytes_per_s = h.net_tx_bytes_per_s;
  eth_client_state = h.eth_client_state;
}

unfoldable pub snapshot_by_name : Ipc.SnapshotMsg → SnapshotMsg
snapshot_by_name s = record {
  unix_ts_ms = s.unix_ts_ms;
  power = map power_by_name s.power;
  net = map net_by_name s.net;
  host = map host_by_name s.host;
  last_power_event = s.last_power_event;
  shutdown_pending_for_s = s.shutdown_pending_for_s;
}

unfoldable pub by_name : Ipc.Reply → Reply
unfolding snapshot_by_name
by_name (Ipc.snapshot_reply s) = snapshot (snapshot_by_name s)
by_name (Ipc.version_reply v) = version v
by_name (Ipc.error_reply e) = error e
