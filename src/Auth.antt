-- ===== src/Auth.antt =====
-- auth/: credentials for remote servers by OAuth.
pub mod Model
pub mod Scopes
pub mod Challenge
pub mod Metadata
pub mod Vault
pub mod Query
pub mod Callback
pub mod Destination
pub mod Token
pub mod Provider
pub mod Request
