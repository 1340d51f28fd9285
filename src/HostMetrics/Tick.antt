-- ===== src/HostMetrics/Tick.antt =====
-- The host metrics task (src/host_metrics/mod.rs). What a tick reads from files and from
-- `systemctl` is an argument; the interval is above 0, for with 0 the task only sleeps.
pub mod Report
pub mod Typed
use web3_pi_ups_service.Prelude.{
  ℕ, zero, suc, ◌+◌, ◌*◌, ◌-◌, ◌/◌, ◌%◌, ◌<◌, ◌≡◌, refl, ap, ◌∙◌, Bool, true, false, if◌then◌else◌,
  Bool-cases, inl, inr, Option, none, some, List, [], ◌∷◌, ◌++◌, Text, Result, ok, arith,
}
use mathlib.Core.Option
use web3_pi_ups_service.Prelude.Int.{ℤ, pos, IsI16}
use web3_pi_ups_service.Config.{EthClientsConfig}
use web3_pi_ups_service.HostMetrics.Cpu.{CpuSnap, compute_usage_pct}
use web3_pi_ups_service.HostMetrics.Eth.{unit_state, read_packed_state}
use web3_pi_ups_service.HostMetrics.Sample.{NetTotals, HostMetricsSample}
use web3_pi_ups_service.Proto.Addr
use web3_pi_ups_service.Proto.Class
use web3_pi_ups_service.Proto.Flag
use web3_pi_ups_service.Proto.Op
use web3_pi_ups_service.Proto.Frame.{Frame}
use web3_pi_ups_service.Proto.Payloads.HostStatusV1
use web3_pi_ups_service.Proto.Payloads.HostStatusV1.{HostStatusV1}
use web3_pi_ups_service.State.{State, next_for, update_host_sample, next_seq}
use web3_pi_ups_service.World.{Env, Effect, sent, send}

-- What one tick reads; `none` where a file is missing or does not parse.
pub record Readings : Type 0 where
  pub cpu : Option CpuSnap
  pub totals : Option NetTotals
  pub load : Option ℕ
  pub temp : Option ℤ
  pub mem : Option ℕ
  pub disk : Option ℕ
  pub uptime : Option ℕ
  pub is_active : Text → Option Text

-- The readings of the tick before.
pub record Previous : Type 0 where
  pub prev_cpu : Option CpuSnap
  pub prev_net : Option NetTotals

abbrev pub cpu_usage : Option CpuSnap → Option CpuSnap → Option ℕ
cpu_usage (some p) (some c) = compute_usage_pct p c
cpu_usage _ _ = none

-- `c.saturating_sub(p) / interval_seconds` for both directions.
abbrev pub rates : ℕ → Option NetTotals → Option NetTotals → Option ℕ × Option ℕ
rates interval (some p) (some c) =
    (some ((c.bytes_rx - p.bytes_rx) / interval), some ((c.bytes_tx - p.bytes_tx) / interval))
rates interval _ _ = (none, none)

abbrev pub status_of : EthClientsConfig → Readings → HostStatusV1
status_of eth_cfg r = record {
  eth_client_state = read_packed_state r.is_active eth_cfg;
  cpu_temp_dc = Option.get_or r.temp (pos 0);
  mem_used_pct = Option.get_or r.mem 0;
  disk_used_pct = Option.get_or r.disk 0;
  load_avg_x100 = Option.get_or r.load 0;
  uptime_s = Option.get_or r.uptime 0;
}

abbrev pub sample_of : ℕ → EthClientsConfig → Previous → Readings → HostMetricsSample
sample_of interval eth_cfg prev r =
    let per_s = rates interval prev.prev_net r.totals in
    record {
      status = status_of eth_cfg r;
      cpu_usage_pct = cpu_usage prev.prev_cpu r.cpu;
      net = r.totals;
      net_rx_bytes_per_s = per_s.0;
      net_tx_bytes_per_s = per_s.1;
    }

abbrev pub status_frame : HostStatusV1 → ℕ → Frame
status_frame status seq = record {
  dst = Addr.rp2040;
  src = Addr.rpi;
  class = Class.host;
  op = Op.Host.status;
  flags = Flag.event;
  seq = seq;
  payload = HostStatusV1.encode status;
}

-- The state after a tick, what it sent, and whether the task goes on.
pub record Ticked : Type 0 where
  pub state : State
  pub prev : Previous
  pub effects : List Effect
  pub goes_on : Bool

-- One round of the loop.
unfoldable pub tick : ℕ → EthClientsConfig → Env → Readings → Previous → State → Ticked
unfolding update_host_sample next_seq
tick interval eth_cfg env r prev s =
    let sample = sample_of interval eth_cfg prev r in
    let stored = update_host_sample env.now sample s in
    let numbered = next_seq Addr.rp2040 stored in
    record {
      state = numbered.1;
      prev = record { prev_cpu = r.cpu; prev_net = r.totals };
      effects = send env (status_frame sample.status numbered.0);
      goes_on = env.channel_open;
    }

-- The loop over the ticks, until the outbound channel is closed.
unfoldable pub host_metrics_loop :
    ℕ → EthClientsConfig → List (Env × Readings) → Previous → State → State × List Effect
unfolding tick
host_metrics_loop interval eth_cfg [] prev s = (s, [])
host_metrics_loop interval eth_cfg ((env, r) ∷ ticks) prev s =
    let t = tick interval eth_cfg env r prev s in
    let rest = host_metrics_loop interval eth_cfg ticks t.prev t.state in
    if t.goes_on then (rest.0, t.effects ++ rest.1) else (t.state, t.effects)
