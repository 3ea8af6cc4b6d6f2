-- ===== src/Tests.antt =====
-- Runs at concrete inputs, and the theorems applied there.
mod Attributes
mod Times
pub mod Config
mod Probe
pub mod Runs
mod Services
mod Icmp
pub mod Daemon
mod Requests
mod Fleet
pub mod Exporters
mod Docs
