-- ===== src/HostMetrics/Files.antt =====
-- What a tick reads from files (src/host_metrics/).
pub mod Report
pub mod Shows
pub mod Tick
use web3_pi_ups_service.Prelude.Chain.{◌>>=◌}
use web3_pi_ups_service.Prelude.{ℕ, Option, none, some, [], ◌∷◌, Text, ascii}
use web3_pi_ups_service.Prelude.Int.{ℤ}
use web3_pi_ups_service.HostMetrics.Cpu.{CpuSnap}
use web3_pi_ups_service.HostMetrics.Cpu.Parse.{
  Reals, parse_cpu_stat, parse_temp_mdeg, parse_load_avg,
}
use web3_pi_ups_service.HostMetrics.Disk
use web3_pi_ups_service.HostMetrics.Disk.{Statvfs}
use web3_pi_ups_service.HostMetrics.Mem.{parse_used_pct}
use web3_pi_ups_service.HostMetrics.Network.{parse_totals}
use web3_pi_ups_service.HostMetrics.Sample.{NetTotals}
use web3_pi_ups_service.HostMetrics.Uptime.{parse_uptime}
use web3_pi_ups_service.HostMetrics.Tick.{Readings}

-- The machine as the readers see it: `fs::read_to_string(path).ok()`, `libc::statvfs`, what
-- `systemctl is-active` prints, and floating-point numbers.
pub record Machine : Type 1 where
  pub read_to_string : Text → Option Text
  pub statvfs : Text → Option Statvfs
  pub is_active : Text → Option Text
  pub f32 : Reals
  pub f64 : Reals

module _ (m : Machine) where
  unfoldable pub read_load_avg_x100 : Option ℕ
  unfolding parse_load_avg
  read_load_avg_x100 = m.read_to_string (ascii "/proc/loadavg") >>= parse_load_avg m.f32

  unfoldable pub read_temp_dc : Option ℤ
  unfolding parse_temp_mdeg
  read_temp_dc =
      m.read_to_string (ascii "/sys/class/thermal/thermal_zone0/temp") >>= parse_temp_mdeg

  unfoldable pub read_cpu_snap : Option CpuSnap
  unfolding parse_cpu_stat
  read_cpu_snap = m.read_to_string (ascii "/proc/stat") >>= parse_cpu_stat

  unfoldable pub read_mem_used_pct : Option ℕ
  unfolding parse_used_pct
  read_mem_used_pct = m.read_to_string (ascii "/proc/meminfo") >>= parse_used_pct

  unfoldable pub read_totals : Option NetTotals
  unfolding parse_totals
  read_totals = m.read_to_string (ascii "/proc/net/dev") >>= parse_totals

  unfoldable pub read_uptime_s : Option ℕ
  unfolding parse_uptime
  read_uptime_s = m.read_to_string (ascii "/proc/uptime") >>= parse_uptime m.f64

  -- What one round of the loop reads.
  unfoldable pub readings : Readings
  unfolding read_load_avg_x100 read_temp_dc read_cpu_snap read_mem_used_pct read_totals
      read_uptime_s Disk.read_used_pct
  readings = record {
    cpu = read_cpu_snap;
    totals = read_totals;
    load = read_load_avg_x100;
    temp = read_temp_dc;
    mem = read_mem_used_pct;
    disk = Disk.read_used_pct m.statvfs (ascii "/");
    uptime = read_uptime_s;
    is_active = m.is_active;
  }
