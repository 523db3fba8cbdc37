-- ===== src/Cleanup.antt =====
-- cleanup/: what is deleted of an installation.
pub mod Journal
pub mod Plan
pub mod Remove
