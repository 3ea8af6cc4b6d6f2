-- ===== src/Config.antt =====
-- internal/config: the ops file and the directory of probe files, decoded, checked and merged.
pub mod Utf8
pub mod Schema
pub mod Protocols
pub mod Validate
pub mod Load
