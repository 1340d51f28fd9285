-- ===== src/Transport.antt =====
-- The serial transport (src/transport/).
pub mod Detect
pub mod Serial
