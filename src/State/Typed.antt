-- ===== src/State/Typed.antt =====
-- The values that the agent's state can hold (src/state.rs).
use web3_pi_ups_service.Prelude.{
  ℕ, ◌+◌, ◌%◌, ◌<◌, All, OnSome, All-insert, All-lookup, Option, none, some, lookup, arith,
}
use mathlib.Core.Option
use web3_pi_ups_service.HostMetrics.Sample.{NetTotals, HostMetricsSample}
use web3_pi_ups_service.Proto.Frame.{IsByte}
use web3_pi_ups_service.Proto.Payloads.HostStatusV1
use web3_pi_ups_service.Proto.Payloads.NetStatusV1
use web3_pi_ups_service.Proto.Payloads.NetStatusV1.{NetStatusV1}
use web3_pi_ups_service.Proto.Payloads.PowerStatusV1
use web3_pi_ups_service.Proto.Payloads.PowerStatusV1.{PowerStatusV1}
use web3_pi_ups_service.Proto.Payloads.SysHelloV1
use web3_pi_ups_service.Proto.Payloads.SysHelloV1.{SysHelloV1}
use web3_pi_ups_service.State.{
  State, new, next_for, update_power, update_power_event, update_net, record_hello,
  update_host_sample, set_shutdown_pending, next_seq,
}

abbrev pub IsU64 : ℕ → Type 0
IsU64 n = n < 18446744073709551616

pub record IsTypedTotals (t : NetTotals) : Type 0 where
  pub bytes_rx : IsU64 t.bytes_rx
  pub bytes_tx : IsU64 t.bytes_tx

pub record IsTypedSample (m : HostMetricsSample) : Type 0 where
  pub status : HostStatusV1.InRange m.status
  pub cpu_usage_pct : OnSome IsByte m.cpu_usage_pct
  pub net : OnSome IsTypedTotals m.net
  pub net_rx_bytes_per_s : OnSome IsU64 m.net_rx_bytes_per_s
  pub net_tx_bytes_per_s : OnSome IsU64 m.net_tx_bytes_per_s

abbrev pub IsTypedPeer : ℕ × SysHelloV1 → Type 0
IsTypedPeer (src, hello) = IsByte src × SysHelloV1.InRange hello

-- The numbers of the payloads, of the metrics and of the sequence counters are in the ranges of
-- their types; the times are readings of the clock.
pub record IsTypedState (s : State) : Type 0 where
  pub last_power : OnSome PowerStatusV1.InRange s.inner.last_power
  pub last_power_event : OnSome IsByte s.inner.last_power_event
  pub last_net : OnSome NetStatusV1.InRange s.inner.last_net
  pub peers : All IsTypedPeer s.inner.peers
  pub last_host : OnSome HostStatusV1.InRange s.inner.last_host
  pub cpu_usage_pct : OnSome IsByte s.inner.cpu_usage_pct
  pub net_totals : OnSome IsTypedTotals s.inner.net_totals
  pub net_rx_bytes_per_s : OnSome IsU64 s.inner.net_rx_bytes_per_s
  pub net_tx_bytes_per_s : OnSome IsU64 s.inner.net_tx_bytes_per_s
  pub tx_seq : All (λ entry. IsByte entry.1) s.tx_seq.next

pub new-IsTypedState : IsTypedState new
new-IsTypedState = record {
  last_power = tt;
  last_power_event = tt;
  last_net = tt;
  peers = tt;
  last_host = tt;
  cpu_usage_pct = tt;
  net_totals = tt;
  net_rx_bytes_per_s = tt;
  net_tx_bytes_per_s = tt;
  tx_seq = tt;
}

get_or-IsByte : (o : Option ℕ) → OnSome IsByte o → IsByte (Option.get_or o 0)
get_or-IsByte none h = omega arith
get_or-IsByte (some n) h = h

module _ (s : State) (h : IsTypedState s) where
  pub update_power-IsTypedState :
      (now : ℕ) (p : PowerStatusV1) → PowerStatusV1.InRange p → IsTypedState (update_power now p s)
  unfolding update_power
  update_power-IsTypedState now p k = ground arith

  pub update_power_event-IsTypedState :
      (now event : ℕ) → IsByte event → IsTypedState (update_power_event now event s)
  unfolding update_power_event
  update_power_event-IsTypedState now event k = ground arith

  pub update_net-IsTypedState :
      (now : ℕ) (n : NetStatusV1) → NetStatusV1.InRange n → IsTypedState (update_net now n s)
  unfolding update_net
  update_net-IsTypedState now n k = ground arith

  pub record_hello-IsTypedState :
      (src : ℕ) (hello : SysHelloV1)
      → IsByte src
      → SysHelloV1.InRange hello
      → IsTypedState (record_hello src hello s)
  unfolding record_hello
  record_hello-IsTypedState src hello k l =
      ground (arith, All-insert IsTypedPeer src hello s.inner.peers (k, l) h.peers)

  pub update_host_sample-IsTypedState :
      (now : ℕ) (m : HostMetricsSample)
      → IsTypedSample m
      → IsTypedState (update_host_sample now m s)
  unfolding update_host_sample
  update_host_sample-IsTypedState now m k = ground arith

  pub set_shutdown_pending-IsTypedState :
      (since : Option ℕ) → IsTypedState (set_shutdown_pending since s)
  unfolding set_shutdown_pending
  set_shutdown_pending-IsTypedState since = ground arith

  -- The number that is handed out is a byte.
  pub next_seq-IsTypedState :
      (dst : ℕ) → IsByte (next_seq dst s).0 × IsTypedState (next_seq dst s).1
  unfolding next_seq next_for
  next_seq-IsTypedState dst =
      let v = Option.get_or (lookup dst s.tx_seq.next) 0 in
      let wraps : IsByte ((v + 1) % 256) = omega arith in
      let kept = All-insert (λ e. IsByte e.1) dst ((v + 1) % 256) s.tx_seq.next wraps h.tx_seq in
      (get_or-IsByte _ (All-lookup IsByte dst s.tx_seq.next h.tx_seq), ground (arith, kept))
