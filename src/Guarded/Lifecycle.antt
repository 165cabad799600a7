-- ===== src/Guarded/Lifecycle.antt =====
-- Starting and saving a machine.
pub mod Retry
pub mod Start
pub mod Save
