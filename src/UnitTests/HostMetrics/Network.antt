-- ===== src/UnitTests/HostMetrics/Network.antt =====
-- The tests of `/proc/net/dev` (src/host_metrics/network.rs, module tests).
use web3_pi_ups_service.Prelude.{◌≡◌, refl, ◌+◌, none, some, ◌++◌, Text, ascii}
use web3_pi_ups_service.HostMetrics.Network.{add_columns, sum_up, parse_totals}
use web3_pi_ups_service.Prelude.Decimal.{parse_uint}
use web3_pi_ups_service.UnitTests.HostMetrics.Cpu.{nl}

abbrev sample : Text
sample =
    ascii "Inter-|   Receive                                                |  Transmit"
    ++ nl
    ++ ascii
        " face |bytes    packets errs drop fifo frame compressed multicast|bytes    packets errs drop fifo colls carrier compressed"
    ++ nl
    ++ ascii
        "    lo:  1024    10     0    0    0    0     0          0         1024    10     0    0    0    0     0          0"
    ++ nl
    ++ ascii
        "  eth0: 12345    100    0    0    0    0     0          0         54321   200    0    0    0    0     0          0"
    ++ nl
    ++ ascii
        "  wlan0:  500    5      0    0    0    0     0          0         2000    8      0    0    0    0     0          0"
    ++ nl

abbrev AggregatesNonLoopback : Type 0
AggregatesNonLoopback =
    parse_totals sample ≡ some (record { bytes_rx = 12345 + 500; bytes_tx = 54321 + 2000 })

aggregates_non_loopback : AggregatesNonLoopback
unfolding parse_totals sum_up add_columns parse_uint
aggregates_non_loopback = refl

abbrev LoopbackOnlyReturnsNone : Type 0
LoopbackOnlyReturnsNone =
    let s =
      ascii "h1"
      ++ nl
      ++ ascii "h2"
      ++ nl
      ++ ascii "    lo:  1 1 0 0 0 0 0 0  1 1 0 0 0 0 0 0"
      ++ nl in
    parse_totals s ≡ none

loopback_only_returns_none : LoopbackOnlyReturnsNone
unfolding parse_totals sum_up add_columns parse_uint
loopback_only_returns_none = refl

abbrev EmptyReturnsNone : Type 0
EmptyReturnsNone = parse_totals (ascii "h1" ++ nl ++ ascii "h2" ++ nl) ≡ none

empty_returns_none : EmptyReturnsNone
unfolding parse_totals sum_up add_columns parse_uint
empty_returns_none = refl
