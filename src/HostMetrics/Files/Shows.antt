-- ===== src/HostMetrics/Files/Shows.antt =====
-- A machine whose files are as the kernel prints them, and what is read on it (src/host_metrics/).
use web3_pi_ups_service.Prelude.Chain.{◌>>=◌}
use web3_pi_ups_service.Prelude.{
  ℕ, ◌++◌, ◌-◌, ◌*◌, ◌/◌, ◌<◌, ◌≡◌, ap, ◌∙◌, true, if◌then◌else◌, none, some, List, Text, ascii,
  All,
}
use web3_pi_ups_service.HostMetrics.Cpu.{CpuSnap, u64_size}
use web3_pi_ups_service.HostMetrics.Cpu.Parse.{parse_cpu_stat}
use web3_pi_ups_service.HostMetrics.Cpu.Printed.{counters, stat_file, parse_cpu_stat-stat_file}
use web3_pi_ups_service.Prelude.Split.Columns.{numbers}
use web3_pi_ups_service.HostMetrics.Files.{Machine, read_cpu_snap, read_mem_used_pct, read_totals}
use web3_pi_ups_service.HostMetrics.Mem.{parse_used_pct}
use web3_pi_ups_service.HostMetrics.Mem.Printed.{IsOther, meminfo, parse_used_pct-meminfo}
use web3_pi_ups_service.HostMetrics.Network.{parse_totals}
use web3_pi_ups_service.HostMetrics.Network.Printed.{
  Interface, IsInterface, net_dev, any_other, saturated, sum_of, parse_totals-net_dev,
}
use web3_pi_ups_service.HostMetrics.Sample.{NetTotals}
use web3_pi_ups_service.Prelude.Split.Printed.{IsLine}

-- `/proc/stat` shows these counters.
pub record ShowsCpu (m : Machine) (s : CpuSnap) : Type 0 where
  pub cols : List (ℕ × ℕ)
  pub more : List ℕ
  pub rest : Text
  pub reads : m.read_to_string (ascii "/proc/stat") ≡ some (stat_file cols rest)
  pub printed : numbers cols ≡ counters s ++ more
  pub fits : All (λ n. n < u64_size) (counters s)

-- `/proc/meminfo` shows a total of `t` kilobytes, of which `a` are available.
pub record ShowsMem (m : Machine) (t a : ℕ) : Type 0 where
  pub before : List Text
  pub between : List Text
  pub pad_t : ℕ
  pub pad_a : ℕ
  pub rest : Text
  pub reads :
      m.read_to_string (ascii "/proc/meminfo") ≡ some (meminfo before pad_t t between pad_a a rest)
  pub others_before : All IsOther before
  pub others_between : All IsOther between
  pub some_memory : 0 < t
  pub total_fits : t * 100 < u64_size
  pub available_fits : a < u64_size

-- `/proc/net/dev` shows these interfaces, one of them not the loopback.
pub record ShowsNet (m : Machine) (ds : List Interface) : Type 0 where
  pub heading : Text
  pub heading2 : Text
  pub reads : m.read_to_string (ascii "/proc/net/dev") ≡ some (net_dev heading heading2 ds)
  pub heading_IsLine : IsLine heading
  pub heading2_IsLine : IsLine heading2
  pub interfaces : All IsInterface ds
  pub some_other : any_other ds ≡ true

-- The bytes that all interfaces but the loopback received and sent.
abbrev pub totals_of : List Interface → NetTotals
totals_of ds = record { bytes_rx = saturated (sum_of 0 ds); bytes_tx = saturated (sum_of 8 ds) }

pub ShowsCpu-read : (m : Machine) (s : CpuSnap) → ShowsCpu m s → read_cpu_snap m ≡ some s
unfolding read_cpu_snap
ShowsCpu-read m s h =
    ap (λ file. file >>= parse_cpu_stat) h.reads
    ∙ parse_cpu_stat-stat_file s h.cols h.more h.rest h.printed h.fits

pub ShowsMem-read :
    (m : Machine) (t a : ℕ) → ShowsMem m t a → read_mem_used_pct m ≡ some ((t - a) * 100 / t)
unfolding read_mem_used_pct
ShowsMem-read m t a h =
    ap (λ file. file >>= parse_used_pct) h.reads
    ∙ parse_used_pct-meminfo h.before h.between h.pad_t t h.pad_a a h.rest h.others_before
        h.others_between h.some_memory h.total_fits h.available_fits

pub ShowsNet-read :
    (m : Machine) (ds : List Interface) → ShowsNet m ds → read_totals m ≡ some (totals_of ds)
unfolding read_totals
ShowsNet-read m ds h =
    ap (λ file. file >>= parse_totals) h.reads
    ∙ parse_totals-net_dev h.heading h.heading2 ds h.heading_IsLine h.heading2_IsLine h.interfaces
    ∙ ap (λ other. if other then some (totals_of ds) else none) h.some_other
