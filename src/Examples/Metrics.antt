-- ===== src/Examples/Metrics.antt =====
-- The theorems on the readers of the host's metrics at work.
use web3_pi_ups_service.Prelude.{
  ℕ, ◌-◌, ◌*◌, ◌/◌, ◌≡◌, refl, if◌then◌else◌, none, some, List, [], ◌∷◌, Text, ascii, arith,
}
use web3_pi_ups_service.Prelude.Split.{strip_prefix}
use web3_pi_ups_service.HostMetrics.Cpu.{CpuSnap}
use web3_pi_ups_service.HostMetrics.Cpu.Parse.{parse_cpu_stat}
use web3_pi_ups_service.HostMetrics.Cpu.Printed.{stat_file, parse_cpu_stat-stat_file}
use web3_pi_ups_service.HostMetrics.Mem.{parse_used_pct}
use web3_pi_ups_service.HostMetrics.Mem.Printed.{meminfo, parse_used_pct-meminfo}
use web3_pi_ups_service.HostMetrics.Network.{parse_totals}
use web3_pi_ups_service.HostMetrics.Network.Printed.{
  Interface, IsInterface, net_dev, any_other, saturated, sum_of, parse_totals-net_dev,
}

abbrev pub free_line : List Text
free_line = ascii "MemFree:         1000000 kB" ∷ []

parse_used_pct-meminfo_example :
    parse_used_pct (meminfo [] 7 16000000 free_line 4 8000000 (ascii "Buffers: 7 kB\n"))
    ≡ some ((16000000 - 8000000) * 100 / 16000000)
unfolding strip_prefix
parse_used_pct-meminfo_example =
    parse_used_pct-meminfo [] free_line 7 16000000 4 8000000 (ascii "Buffers: 7 kB\n") tt
      ((ground arith, refl, refl), tt) (omega arith) (omega arith) (omega arith)

abbrev pub counted : CpuSnap
counted = record {
  user = 100;
  nice = 5;
  system = 50;
  idle = 1000;
  iowait = 30;
  irq = 0;
  softirq = 2;
}

abbrev pub cpu_columns : List (ℕ × ℕ)
cpu_columns =
    (1, 100) ∷ (0, 5) ∷ (0, 50) ∷ (0, 1000) ∷ (0, 30) ∷ (0, 0) ∷ (0, 2) ∷ (0, 0) ∷ (0, 0) ∷ []

parse_cpu_stat-stat_file_example :
    parse_cpu_stat (stat_file cpu_columns (ascii "cpu0 ...\n")) ≡ some counted
parse_cpu_stat-stat_file_example =
    parse_cpu_stat-stat_file counted cpu_columns (0 ∷ 0 ∷ []) (ascii "cpu0 ...\n") refl (
      omega arith,
      (omega arith, (omega arith, (omega arith, (omega arith, (omega arith, (omega arith, tt)))))),
    )

abbrev traffic : ℕ → ℕ → List (ℕ × ℕ)
traffic rx tx =
    (2, rx)
    ∷ (4, 10)
    ∷ (5, 0)
    ∷ (4, 0)
    ∷ (4, 0)
    ∷ (4, 0)
    ∷ (5, 0)
    ∷ (10, 0)
    ∷ (8, tx)
    ∷ (3, 10)
    ∷ []

abbrev pub device : Text → ℕ → ℕ → Interface
device name rx tx = record { pad = 2; name = name; cols = traffic rx tx }

pub device-IsInterface_lo : IsInterface (device (ascii "lo") 1024 1024)
device-IsInterface_lo = record {
  graphic = ground arith;
  no_colon = ground arith;
  enough = omega arith;
  u64s = ground arith;
}

pub device-IsInterface_eth0 : IsInterface (device (ascii "eth0") 12345 54321)
device-IsInterface_eth0 = record {
  graphic = ground arith;
  no_colon = ground arith;
  enough = omega arith;
  u64s = ground arith;
}

abbrev pub devices : List Interface
devices = device (ascii "lo") 1024 1024 ∷ device (ascii "eth0") 12345 54321 ∷ []

parse_totals-net_dev_example :
    parse_totals (net_dev (ascii "Inter-|") (ascii " face |") devices) ≡ (
      if any_other devices
      then some (record {
        bytes_rx = saturated (sum_of 0 devices);
        bytes_tx = saturated (sum_of 8 devices);
      })
      else none)
parse_totals-net_dev_example =
    parse_totals-net_dev (ascii "Inter-|") (ascii " face |") devices (ground arith) (ground arith)
      (device-IsInterface_lo, (device-IsInterface_eth0, tt))
