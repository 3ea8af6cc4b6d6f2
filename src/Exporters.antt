-- ===== src/Exporters.antt =====
-- internal/exporter: the two exporters, which a result goes through.
pub mod Otlp
pub mod Stdout
