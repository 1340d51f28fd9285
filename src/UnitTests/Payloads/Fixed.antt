-- ===== src/UnitTests/Payloads/Fixed.antt =====
-- The round trips of the payloads of a fixed length (src/proto/payloads.rs, module tests).
use web3_pi_ups_service.Prelude.{◌*◌, refl}
use web3_pi_ups_service.Prelude.Int.{pos, negsuc}
use web3_pi_ups_service.Proto
use web3_pi_ups_service.Proto.Payloads.SysPongV1
use web3_pi_ups_service.Proto.Payloads.SysHelloV1
use web3_pi_ups_service.Proto.Payloads.PowerStatusV1
use web3_pi_ups_service.Proto.Payloads.PowerCycleV1
use web3_pi_ups_service.Proto.Payloads.PowerEventV1
use web3_pi_ups_service.Proto.Payloads.NetStatusV1
use web3_pi_ups_service.Proto.Payloads.NetTimeSyncV1
use web3_pi_ups_service.Proto.Payloads.HostStatusV1
use web3_pi_ups_service.Proto.Payloads.HostShutdownV1
use web3_pi_ups_service.Proto.Payloads.HostEventV1
use web3_pi_ups_service.Proto.Payloads.UiButtonEventV1
use web3_pi_ups_service.Proto.Payloads.UiSetScreenV1
use web3_pi_ups_service.Proto.Payloads.UiBeepV1
use web3_pi_ups_service.Proto.Payloads.PowerEvent
use web3_pi_ups_service.Proto.Payloads.HostEvent
use web3_pi_ups_service.Proto.Payloads.HostShutdownReason
use web3_pi_ups_service.Proto.Payloads.PowerFault
use web3_pi_ups_service.Proto.Payloads.Wire.{check_fixed_len, check_version}
use web3_pi_ups_service.UnitTests.Payloads.{RoundTrip}

abbrev SysPongRoundTrip : Type 0
SysPongRoundTrip =
    RoundTrip (record { fw_version = 0x0103; uptime_ms = 12345 }) SysPongV1.encode SysPongV1.decode

sys_pong_round_trip : SysPongRoundTrip
unfolding SysPongV1.encode SysPongV1.decode check_fixed_len check_version
sys_pong_round_trip = refl

abbrev SysHelloRoundTrip : Type 0
SysHelloRoundTrip =
    RoundTrip
      (record {
        proto_version = Proto.proto_version;
        node_addr = 0x02;
        fw_version = 0x0203;
        caps_classes = 14;
        build_id = 0xdeadbeef;
      })
      SysHelloV1.encode SysHelloV1.decode

sys_hello_round_trip : SysHelloRoundTrip
unfolding SysHelloV1.encode SysHelloV1.decode check_fixed_len check_version
sys_hello_round_trip = refl

abbrev PowerStatusRoundTrip : Type 0
PowerStatusRoundTrip =
    RoundTrip
      (record {
        charge_state = 1;
        vbus_in_mv = 12000;
        vbus_out_mv = 5100;
        ibus_out_ma = negsuc 249;
        vbat_mv = 11700;
        ibat_ma = pos 300;
        temp_dc = pos 253;
        pd_contract_mv = 9000;
        pd_contract_ma = 3000;
        faults = PowerFault.pd_neg;
      })
      PowerStatusV1.encode PowerStatusV1.decode

power_status_round_trip : PowerStatusRoundTrip
unfolding PowerStatusV1.encode PowerStatusV1.decode check_fixed_len check_version
power_status_round_trip = refl

abbrev PowerCycleRoundTrip : Type 0
PowerCycleRoundTrip = RoundTrip (record { off_ms = 5000 }) PowerCycleV1.encode PowerCycleV1.decode

power_cycle_round_trip : PowerCycleRoundTrip
unfolding PowerCycleV1.encode PowerCycleV1.decode check_fixed_len check_version
power_cycle_round_trip = refl

abbrev PowerEventRoundTrip : Type 0
PowerEventRoundTrip =
    RoundTrip (record { event = PowerEvent.mains_lost }) PowerEventV1.encode PowerEventV1.decode

power_event_round_trip : PowerEventRoundTrip
unfolding PowerEventV1.encode PowerEventV1.decode check_fixed_len check_version
power_event_round_trip = refl

abbrev NetStatusRoundTrip : Type 0
NetStatusRoundTrip =
    RoundTrip
      (record {
        state = 4;
        rssi_dbm = negsuc 84;
        rsrp_dbm = negsuc 109;
        rsrq_db = negsuc 11;
        errors = 3;
        ip_addr = 0x0a000001;
        bytes_tx = 1024;
        bytes_rx = 4096;
      })
      NetStatusV1.encode NetStatusV1.decode

net_status_round_trip : NetStatusRoundTrip
unfolding NetStatusV1.encode NetStatusV1.decode check_fixed_len check_version
net_status_round_trip = refl

abbrev NetTimeSyncRoundTrip : Type 0
NetTimeSyncRoundTrip =
    RoundTrip (record { ms_frac = 500; unix_s = 1_762_500_000 }) NetTimeSyncV1.encode
      NetTimeSyncV1.decode

net_time_sync_round_trip : NetTimeSyncRoundTrip
unfolding NetTimeSyncV1.encode NetTimeSyncV1.decode check_fixed_len check_version
net_time_sync_round_trip = refl

abbrev HostStatusRoundTrip : Type 0
HostStatusRoundTrip =
    RoundTrip
      (record {
        eth_client_state = 1;
        cpu_temp_dc = pos 552;
        mem_used_pct = 42;
        disk_used_pct = 71;
        load_avg_x100 = 125;
        uptime_s = 3600 * 48;
      })
      HostStatusV1.encode HostStatusV1.decode

host_status_round_trip : HostStatusRoundTrip
unfolding HostStatusV1.encode HostStatusV1.decode check_fixed_len check_version
host_status_round_trip = refl

abbrev HostShutdownRoundTrip : Type 0
HostShutdownRoundTrip =
    RoundTrip (record { reason = HostShutdownReason.low_battery; delay_s = 30 })
      HostShutdownV1.encode HostShutdownV1.decode

host_shutdown_round_trip : HostShutdownRoundTrip
unfolding HostShutdownV1.encode HostShutdownV1.decode check_fixed_len check_version
host_shutdown_round_trip = refl

abbrev HostEventRoundTrip : Type 0
HostEventRoundTrip =
    RoundTrip (record { event = HostEvent.eth_synced }) HostEventV1.encode HostEventV1.decode

host_event_round_trip : HostEventRoundTrip
unfolding HostEventV1.encode HostEventV1.decode check_fixed_len check_version
host_event_round_trip = refl

abbrev UiButtonEventRoundTrip : Type 0
UiButtonEventRoundTrip =
    RoundTrip (record { button = 1; action = 2 }) UiButtonEventV1.encode UiButtonEventV1.decode

ui_button_event_round_trip : UiButtonEventRoundTrip
unfolding UiButtonEventV1.encode UiButtonEventV1.decode check_fixed_len check_version
ui_button_event_round_trip = refl

abbrev UiSetScreenRoundTrip : Type 0
UiSetScreenRoundTrip = RoundTrip (record { screen = 3 }) UiSetScreenV1.encode UiSetScreenV1.decode

ui_set_screen_round_trip : UiSetScreenRoundTrip
unfolding UiSetScreenV1.encode UiSetScreenV1.decode check_fixed_len check_version
ui_set_screen_round_trip = refl

abbrev UiBeepRoundTrip : Type 0
UiBeepRoundTrip =
    RoundTrip (record { freq_hz = 2000; dur_ms = 100 }) UiBeepV1.encode UiBeepV1.decode

ui_beep_round_trip : UiBeepRoundTrip
unfolding UiBeepV1.encode UiBeepV1.decode check_fixed_len check_version
ui_beep_round_trip = refl
