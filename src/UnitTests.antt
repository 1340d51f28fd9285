-- ===== src/UnitTests.antt =====
-- The unit tests of the repository, as statements about the definitions: each test function is the
-- proposition that its assertions hold, and is proved by computation.
pub mod Payloads
pub mod Proto
pub mod Soc
pub mod HostMetrics
pub mod Commands
pub mod ShutdownSm
