-- ===== src/Examples/Ticks.antt =====
-- Two ticks of the metrics task at work.
use web3_pi_ups_service.Prelude.{
  ℕ, ◌*◌, ◌/◌, true, false, if◌then◌else◌, none, some, List, [], ◌∷◌, ascii, text_eq,
}
use web3_pi_ups_service.Config
use web3_pi_ups_service.HostMetrics.Cpu.{CpuSnap}
use web3_pi_ups_service.HostMetrics.Cpu.Parse.{Reals}
use web3_pi_ups_service.HostMetrics.Cpu.Printed.{stat_file}
use web3_pi_ups_service.HostMetrics.Files.{Machine}
use web3_pi_ups_service.HostMetrics.Mem.Printed.{meminfo}
use web3_pi_ups_service.HostMetrics.Network.Printed.{Interface, net_dev}
use web3_pi_ups_service.HostMetrics.Tick.{Previous}
use web3_pi_ups_service.Proto.Addr
use web3_pi_ups_service.State
use web3_pi_ups_service.Examples.Metrics.{free_line, counted, cpu_columns, device, devices}

-- Numbers in hundredths, every text being 0.45.
abbrev hundredths : Reals
hundredths = record {
  Real = ℕ;
  parse = λ s. some 45;
  is_finite = λ x. true;
  is_negative = λ x. false;
  round = λ factor x. x * factor / 100;
}

-- A machine with these counters of processors and interfaces, and no temperature.
abbrev machine : List (ℕ × ℕ) → List Interface → Machine
machine cols interfaces = record {
  read_to_string = λ path.
      if text_eq path (ascii "/proc/stat")
      then some (stat_file cols [])
      else if text_eq path (ascii "/proc/meminfo")
      then some (meminfo [] 7 16000000 free_line 4 8000000 [])
      else if text_eq path (ascii "/proc/net/dev")
      then some (net_dev (ascii "Inter-|") (ascii " face |") interfaces)
      else none;
  statvfs = λ path. some (record { f_frsize = 4096; f_blocks = 1000; f_bavail = 250 });
  is_active = λ unit. some (ascii "active\n");
  f32 = hundredths;
  f64 = hundredths;
}

-- The machine 30 seconds later.
abbrev later_columns : List (ℕ × ℕ)
later_columns = (1, 400) ∷ (0, 5) ∷ (0, 150) ∷ (0, 1600) ∷ (0, 30) ∷ (0, 0) ∷ (0, 2) ∷ []

abbrev later_counted : CpuSnap
later_counted = record counted { user = 400; system = 150; idle = 1600 }

abbrev later_devices : List Interface
later_devices = device (ascii "eth0") 72345 84321 ∷ []

abbrev earlier : Machine
earlier = machine cpu_columns devices

abbrev later : Machine
later = machine later_columns later_devices

abbrev nothing_before : Previous
nothing_before = record { prev_cpu = none; prev_net = none }
