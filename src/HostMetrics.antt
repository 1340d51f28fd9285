-- ===== src/HostMetrics.antt =====
-- Host metrics (src/host_metrics/).
pub mod Sample
pub mod Cpu
pub mod Eth
pub mod Mem
pub mod Network
pub mod Disk
pub mod Uptime
pub mod Tick
pub mod Files
