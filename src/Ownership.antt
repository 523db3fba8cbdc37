-- ===== src/Ownership.antt =====
-- ownership/: what was installed, by whom, and what proves it.
pub mod Model
pub mod Validation
pub mod Store
