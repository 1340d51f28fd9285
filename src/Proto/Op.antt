-- ===== src/Proto/Op.antt =====
-- Operation codes, by class (src/proto/mod.rs, module op).
pub mod System
pub mod Power
pub mod Net
pub mod Host
pub mod Ui
