-- ===== src/State.antt =====
-- The agent's shared state (src/state.rs). A method that takes the write lock is one step; the
-- time that it reads is an argument. `HashMap<u8, _>` is an association list.
pub mod Sequence
pub mod Typed
use web3_pi_ups_service.Prelude.{ℕ, ◌+◌, ◌%◌, Option, none, some, List, [], ◌∷◌, lookup, insert}
use mathlib.Core.Option
use web3_pi_ups_service.HostMetrics.Sample.{NetTotals, HostMetricsSample}
use web3_pi_ups_service.Proto.Payloads.HostStatusV1.{HostStatusV1}
use web3_pi_ups_service.Proto.Payloads.NetStatusV1.{NetStatusV1}
use web3_pi_ups_service.Proto.Payloads.PowerStatusV1.{PowerStatusV1}
use web3_pi_ups_service.Proto.Payloads.SysHelloV1.{SysHelloV1}

pub record AgentState : Type 0 where
  pub last_power : Option PowerStatusV1
  pub last_power_at : Option ℕ
  pub last_power_event : Option ℕ
  pub last_power_event_at : Option ℕ
  pub last_net : Option NetStatusV1
  pub last_net_at : Option ℕ
  pub peers : List (ℕ × SysHelloV1)
  pub shutdown_pending_since : Option ℕ
  pub last_host : Option HostStatusV1
  pub last_host_at : Option ℕ
  pub cpu_usage_pct : Option ℕ
  pub net_totals : Option NetTotals
  pub net_rx_bytes_per_s : Option ℕ
  pub net_tx_bytes_per_s : Option ℕ

abbrev pub default_agent_state : AgentState
default_agent_state = record {
  last_power = none;
  last_power_at = none;
  last_power_event = none;
  last_power_event_at = none;
  last_net = none;
  last_net_at = none;
  peers = [];
  shutdown_pending_since = none;
  last_host = none;
  last_host_at = none;
  cpu_usage_pct = none;
  net_totals = none;
  net_rx_bytes_per_s = none;
  net_tx_bytes_per_s = none;
}

-- The next sequence number for each destination.
pub record TxSeq : Type 0 where
  pub next : List (ℕ × ℕ)

-- `entry(dst).or_insert(0)`, then a wrapping increment.
unfoldable pub next_for : TxSeq → ℕ → ℕ × TxSeq
next_for q dst =
    let v = Option.get_or (lookup dst q.next) 0 in
    (v, record { next = insert dst ((v + 1) % 256) q.next })

pub record State : Type 0 where
  pub inner : AgentState
  pub tx_seq : TxSeq

abbrev pub new : State
new = record { inner = default_agent_state; tx_seq = record { next = [] } }

unfoldable pub update_power : ℕ → PowerStatusV1 → State → State
update_power now status s = record s {
  inner = record s.inner { last_power = some status; last_power_at = some now };
}

unfoldable pub update_power_event : ℕ → ℕ → State → State
update_power_event now event s = record s {
  inner = record s.inner { last_power_event = some event; last_power_event_at = some now };
}

unfoldable pub update_net : ℕ → NetStatusV1 → State → State
update_net now status s = record s {
  inner = record s.inner { last_net = some status; last_net_at = some now };
}

unfoldable pub record_hello : ℕ → SysHelloV1 → State → State
record_hello src hello s = record s {
  inner = record s.inner { peers = insert src hello s.inner.peers };
}

unfoldable pub update_host_sample : ℕ → HostMetricsSample → State → State
update_host_sample now sample s = record s {
  inner = record s.inner {
    last_host = some sample.status;
    last_host_at = some now;
    cpu_usage_pct = sample.cpu_usage_pct;
    net_totals = sample.net;
    net_rx_bytes_per_s = sample.net_rx_bytes_per_s;
    net_tx_bytes_per_s = sample.net_tx_bytes_per_s;
  };
}

unfoldable pub snapshot : State → AgentState
snapshot s = s.inner

unfoldable pub set_shutdown_pending : Option ℕ → State → State
set_shutdown_pending since s = record s {
  inner = record s.inner { shutdown_pending_since = since };
}

unfoldable pub next_seq : ℕ → State → ℕ × State
unfolding next_for
next_seq dst s = let (v, q) = next_for s.tx_seq dst in (v, record s { tx_seq = q })
