-- ===== src/UnitTests/HostMetrics.antt =====
-- The tests of the metrics that need no floating-point numbers (src/host_metrics).
pub mod Cpu
pub mod Mem
pub mod Network
pub mod Eth
