-- ===== src/Config.antt =====
-- src/config.rs: the configuration, its defaults, and what `validate` accepts.
pub mod Address
pub mod Schema
pub mod Validate
pub mod Path
pub mod File
