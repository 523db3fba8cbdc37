-- ===== src/Supervisor.antt =====
-- supervisor/: the local supervisor process.
pub mod Wire
pub mod Barrier
pub mod Manager
