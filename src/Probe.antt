-- ===== src/Probe.antt =====
-- internal/probe: what the probers share.
pub mod Targets
pub mod Stats
pub mod Run
pub mod Ports
pub mod Tcp
pub mod Udp
pub mod Dns
pub mod Http
pub mod Icmp
pub mod Runs
