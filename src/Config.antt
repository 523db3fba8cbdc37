-- ===== src/Config.antt =====
-- config/: the configuration of servers, its validation, and what is in effect.
pub mod Types
pub mod Same
pub mod Names
pub mod Url
pub mod Authentication
pub mod Schema
pub mod Project
pub mod Effective
pub mod Mutation
