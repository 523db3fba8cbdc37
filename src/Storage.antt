-- ===== src/Storage.antt =====
-- storage/: files that are replaced as a whole, under a lock.
pub mod Exec
pub mod Transaction
pub mod Locked
pub mod Paths
