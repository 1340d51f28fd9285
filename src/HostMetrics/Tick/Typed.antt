-- ===== src/HostMetrics/Tick/Typed.antt =====
-- A tick of the metrics task keeps the state within its types and sends only what can be sent
-- (src/host_metrics/mod.rs).
use web3_pi_ups_service.Prelude.{
  ℕ, ◌-◌, ◌/◌, ◌≤◌, Option, none, some, OnSome, All, arith, if-either, if◌then◌else◌, ltb, ◌==◌,
  min, ◌+◌, ◌*◌, ◌%◌,
}
use native.Mathlib.Nat.{div-le_self}
use web3_pi_ups_service.Commands.Allowed.{send-All}
use web3_pi_ups_service.Config.{EthClientsConfig}
use web3_pi_ups_service.HostMetrics.Cpu.{
  CpuSnap, compute_usage_pct, busy_pct, u64_size, total, idle_total,
}
use web3_pi_ups_service.HostMetrics.Sample.{NetTotals}
use web3_pi_ups_service.HostMetrics.Tick.{
  Readings, Previous, cpu_usage, rates, status_of, sample_of, status_frame, tick,
}
use web3_pi_ups_service.HostMetrics.Tick.Report.{IsReading, status_of-InRange}
use web3_pi_ups_service.Proto.Frame.{IsByte}
use web3_pi_ups_service.Proto.Addr
use web3_pi_ups_service.Proto.Payloads.HostStatusV1
use web3_pi_ups_service.State.{State, update_host_sample}
use web3_pi_ups_service.State.Typed.{
  IsU64, IsTypedTotals, IsTypedSample, IsTypedState, update_host_sample-IsTypedState,
  next_seq-IsTypedState,
}
use web3_pi_ups_service.World.{Env, sent}
use web3_pi_ups_service.World.Typed.{IsSendable}

-- What the readers return fits their types, the interfaces' totals included.
abbrev pub IsTypedReadings : Readings → Type 0
IsTypedReadings r = IsReading r × OnSome IsTypedTotals r.totals

min_le : (n : ℕ) → min n 100 ≤ 100
min_le n = omega arith

busy_pct-IsByte : (dt di : ℕ) → IsByte (busy_pct dt di)
busy_pct-IsByte dt di =
    omega (arith, min_le ((dt + u64_size - di) % u64_size * 100 % u64_size / dt))

compute_usage_pct-IsByte : (prev curr : CpuSnap) → OnSome IsByte (compute_usage_pct prev curr)
unfolding compute_usage_pct
compute_usage_pct-IsByte prev curr =
    let dt = total curr - total prev in
    let di = idle_total curr - idle_total prev in
    let pct = if dt == 0 then 0 else busy_pct dt di in
    let zero_lt : IsByte 0 = omega arith in
    let forward = if ltb (idle_total curr) (idle_total prev) then none else some pct in
    if-either (OnSome IsByte) (ltb (total curr) (total prev)) none forward (tt {0}) (
      if-either (OnSome IsByte) (ltb (idle_total curr) (idle_total prev)) none (some pct) (tt {0})
        (if-either IsByte (dt == 0) 0 (busy_pct dt di) zero_lt (busy_pct-IsByte dt di)))

cpu_usage-IsByte : (prev curr : Option CpuSnap) → OnSome IsByte (cpu_usage prev curr)
cpu_usage-IsByte (some p) (some c) = compute_usage_pct-IsByte p c
cpu_usage-IsByte none c = tt
cpu_usage-IsByte (some p) none = tt

rate_lt : (interval c p : ℕ) → IsU64 c → IsU64 ((c - p) / interval)
rate_lt interval c p h = omega (arith, div-le_self (c - p) interval)

rates-IsU64 :
    (interval : ℕ) (prev curr : Option NetTotals)
    → OnSome IsTypedTotals curr
    → OnSome IsU64 (rates interval prev curr).0 × OnSome IsU64 (rates interval prev curr).1
rates-IsU64 interval (some p) (some c) h = (
  rate_lt interval c.bytes_rx p.bytes_rx h.bytes_rx,
  rate_lt interval c.bytes_tx p.bytes_tx h.bytes_tx,
)
rates-IsU64 interval none c h = (tt, tt)
rates-IsU64 interval (some p) none h = (tt, tt)

module _ (interval : ℕ) (eth_cfg : EthClientsConfig) (r : Readings) (prev : Previous)
    (k : IsTypedReadings r) where
  sample_of-IsTypedSample : IsTypedSample (sample_of interval eth_cfg prev r)
  sample_of-IsTypedSample =
      let per_s = rates-IsU64 interval prev.prev_net r.totals k.1 in
      record {
        status = status_of-InRange eth_cfg r k.0;
        cpu_usage_pct = cpu_usage-IsByte prev.prev_cpu r.cpu;
        net = k.1;
        net_rx_bytes_per_s = per_s.0;
        net_tx_bytes_per_s = per_s.1;
      }

  status_frame-IsSendable :
      (seq : ℕ) → IsByte seq → IsSendable (sent (status_frame (status_of eth_cfg r) seq))
  unfolding HostStatusV1.encode
  status_frame-IsSendable seq b =
      let h = status_of-InRange eth_cfg r k.0 in
      (
        record {
          dst = omega arith;
          src = omega arith;
          class = omega arith;
          op = omega arith;
          flags = omega arith;
          seq = b;
          payload = HostStatusV1.encode-IsByte (status_of eth_cfg r) h;
        },
        omega arith,
      )

  pub tick-IsTyped :
      (env : Env) (s : State)
      → IsTypedState s
      → let t = tick interval eth_cfg env r prev s in
        IsTypedState t.state × All IsSendable t.effects
  unfolding tick
  tick-IsTyped env s h =
      let sample = sample_of interval eth_cfg prev r in
      let stored = update_host_sample-IsTypedState s h env.now sample sample_of-IsTypedSample in
      let (number, numbered) =
        next_seq-IsTypedState (update_host_sample env.now sample s) stored Addr.rp2040 in
      (numbered, send-All IsSendable env _ (status_frame-IsSendable _ number))
