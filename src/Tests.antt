-- ===== src/Tests.antt =====
-- Runs of the theorems on concrete inputs.
mod Documents
mod Stores
mod Servers
mod Messages
mod Commands
mod Cleanup
mod Logins
mod Gates
