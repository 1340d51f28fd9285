-- ===== src/Cli.antt =====
-- The command line client `w3p-ups status` and `w3p-ups watch` (src/cli.rs).
pub mod Clock
pub mod Format
pub mod Snapshot
pub mod Print
pub mod Session
