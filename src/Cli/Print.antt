-- ===== src/Cli/Print.antt =====
-- The lines that `print_snapshot` of src/cli.rs prints.
use web3_pi_ups_service.Prelude.{
  ℕ, if◌then◌else◌, Option, none, some, List, [], ◌∷◌, ◌++◌, Text, ascii,
}
use web3_pi_ups_service.Prelude.Decimal.{show, show_ℤ}
use web3_pi_ups_service.Prelude.Int.{pos}
use web3_pi_ups_service.HostMetrics.Eth.{unpack, state_name}
use web3_pi_ups_service.Cli.Format.{
  Floats, format_clock_utc, fmt_uptime, fmt_mv, fmt_ma, fmt_bytes, charge_state_name,
  net_state_name, power_event_name, show_hex4, pad_right, row,
}
use web3_pi_ups_service.Cli.Snapshot.{PowerSnap, NetSnap, HostSnap, SnapshotMsg}

-- `—`, `°C`, `↓` and `↑` in UTF-8
abbrev pub dash : Text
dash = 0xe2 ∷ 0x80 ∷ 0x94 ∷ []

abbrev pub celsius : Text
celsius = 0xc2 ∷ 0xb0 ∷ 67 ∷ []

abbrev pub down : Text
down = 0xe2 ∷ 0x86 ∷ 0x93 ∷ []

abbrev pub up : Text
up = 0xe2 ∷ 0x86 ∷ 0x91 ∷ []

-- `.map(|m| format!("{}ms ago", m)).unwrap_or_else(|| "no data".into())`
unfoldable pub show_age : Option ℕ → Text
unfolding show
show_age none = ascii "no data"
show_age (some m) = show m ++ ascii "ms ago"

unfoldable pub event_rows : Option ℕ → List Text
unfolding row power_event_name
event_rows none = []
event_rows (some ev) = row (ascii "last event") (power_event_name ev) ∷ []

unfoldable pub alert_rows : Option ℕ → List Text
unfolding row show
alert_rows none = []
alert_rows (some secs) =
    row (ascii "ALERT") (ascii "shutdown pending: " ++ show secs ++ ascii " s elapsed") ∷ []

-- The rows of a power status.
unfoldable pub power_rows : Floats → PowerSnap → List Text
unfolding row show show_ℤ fmt_mv fmt_ma charge_state_name show_hex4 pad_right
power_rows floats p =
    let src = if p.on_battery then ascii "BATTERY" else ascii "GRID" in
    let charge = charge_state_name p.charge_state in
    let temp_c = floats.fixed32 1 p.temp_dc 10 in
    row (ascii "source") (pad_right 8 src ++ ascii "  charge: " ++ charge)
    ∷ row (ascii "input") (ascii "VI   = " ++ fmt_mv floats (pos p.vbus_in_mv) ++ ascii " V")
    ∷ row (ascii "output") (
        ascii "VOUT = "
        ++ fmt_mv floats (pos p.vbus_out_mv)
        ++ ascii " V    IOUT = "
        ++ fmt_ma floats p.ibus_out_ma
        ++ ascii " A")
    ∷ row (ascii "battery") (
        ascii "VBAT = "
        ++ fmt_mv floats (pos p.vbat_mv)
        ++ ascii " V    IBAT = "
        ++ show_ℤ p.ibat_ma
        ++ ascii " mA    SOC  = "
        ++ show p.soc_pct
        ++ ascii "%")
    ∷ row (ascii "thermal") (ascii "T = " ++ temp_c ++ ascii " " ++ celsius)
    ∷ row (ascii "faults") (ascii "0x" ++ show_hex4 p.faults)
    ∷ []

unfoldable pub power_block : Floats → Option PowerSnap → Option ℕ → Option ℕ → List Text
unfolding power_rows event_rows alert_rows show_age
power_block floats none event pending = ascii "power  (no data yet)" ∷ []
power_block floats (some p) event pending =
    (ascii "power  (" ++ show_age p.age_ms ++ ascii ")")
    ∷ (power_rows floats p ++ (event_rows event ++ alert_rows pending))

unfoldable pub print_power_block : Floats → SnapshotMsg → List Text
unfolding power_block
print_power_block floats s = power_block floats s.power s.last_power_event s.shutdown_pending_for_s

unfoldable pub print_net_block : Floats → NetSnap → List Text
unfolding row show_ℤ show_age net_state_name fmt_bytes
print_net_block floats n =
    (ascii "net    (" ++ show_age n.age_ms ++ ascii ")")
    ∷ row (ascii "state") (net_state_name n.state)
    ∷ row (ascii "signal") (
        ascii "RSSI = "
        ++ show_ℤ n.rssi_dbm
        ++ ascii " dBm    RSRP = "
        ++ show_ℤ n.rsrp_dbm
        ++ ascii " dBm    RSRQ = "
        ++ show_ℤ n.rsrq_db
        ++ ascii " dB")
    ∷ row (ascii "traffic") (
        ascii "RX = "
        ++ fmt_bytes floats n.bytes_rx
        ++ ascii "    TX = "
        ++ fmt_bytes floats n.bytes_tx)
    ∷ []

unfoldable pub net_rate : Floats → Option ℕ → Option ℕ → Text
unfolding fmt_bytes
net_rate floats (some r) (some t) =
    down
    ++ ascii " "
    ++ fmt_bytes floats r
    ++ ascii "/s    "
    ++ up
    ++ ascii " "
    ++ fmt_bytes floats t
    ++ ascii "/s"
net_rate floats _ _ = ascii "n/a"

unfoldable pub net_total : Floats → Option ℕ → Option ℕ → Text
unfolding fmt_bytes
net_total floats (some r) (some t) =
    ascii "(total "
    ++ down
    ++ ascii " "
    ++ fmt_bytes floats r
    ++ ascii " / "
    ++ up
    ++ ascii " "
    ++ fmt_bytes floats t
    ++ ascii ")"
net_total floats _ _ = []

unfoldable pub show_usage : Option ℕ → Text
unfolding show
show_usage none = ascii "n/a"
show_usage (some p) = show p ++ ascii "%"

-- The rows of the host's metrics.
unfoldable pub host_rows : Floats → HostSnap → List Text
unfolding show_usage row show fmt_uptime net_rate net_total unpack state_name
host_rows floats h =
    let temp_c = floats.fixed32 1 h.cpu_temp_dc 10 in
    let load = floats.fixed32 2 (pos h.load_avg_x100) 100 in
    let cpu_usage = show_usage h.cpu_usage_pct in
    let rate = net_rate floats h.net_rx_bytes_per_s h.net_tx_bytes_per_s in
    let total = net_total floats h.net_bytes_rx_total h.net_bytes_tx_total in
    let (eth_exec, eth_cons, eth_val) = unpack h.eth_client_state in
    row (ascii "cpu") (
      ascii "T = "
      ++ temp_c
      ++ ascii " "
      ++ celsius
      ++ ascii "    usage = "
      ++ cpu_usage
      ++ ascii "    load = "
      ++ load)
    ∷ row (ascii "memory") (show h.mem_used_pct ++ ascii "% used")
    ∷ row (ascii "disk (/)") (show h.disk_used_pct ++ ascii "% used")
    ∷ row (ascii "uptime") (fmt_uptime h.uptime_s)
    ∷ row (ascii "network") (rate ++ ascii "   " ++ total)
    ∷ row (ascii "eth execution") (state_name eth_exec)
    ∷ row (ascii "eth consensus") (state_name eth_cons)
    ∷ row (ascii "eth validator") (state_name eth_val)
    ∷ []

unfoldable pub host_block : Floats → Option HostSnap → List Text
unfolding host_rows show_age
host_block floats none = ascii "host   (no data yet)" ∷ []
host_block floats (some h) =
    (ascii "host   (" ++ show_age h.age_ms ++ ascii ")") ∷ host_rows floats h

unfoldable pub print_host_block : Floats → SnapshotMsg → List Text
unfolding host_block
print_host_block floats s = host_block floats s.host

-- An empty line and the net block, where there is one.
unfoldable pub net_block : Floats → Option NetSnap → List Text
unfolding print_net_block
net_block floats none = []
net_block floats (some n) = [] ∷ print_net_block floats n

-- The lines that `print_snapshot` prints.
unfoldable pub print_snapshot : Floats → SnapshotMsg → List Text
unfolding print_power_block net_block print_host_block format_clock_utc
print_snapshot floats s =
    (ascii "Web3 Pi UPS " ++ dash ++ ascii " " ++ format_clock_utc s.unix_ts_ms)
    ∷ []
    ∷ (print_power_block floats s ++ (net_block floats s.net ++ ([] ∷ print_host_block floats s)))
