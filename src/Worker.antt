-- ===== src/Worker.antt =====
-- `src/worker`
pub mod Limits
pub mod Tasks
pub mod Spamd
