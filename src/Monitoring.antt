-- ===== src/Monitoring.antt =====
-- monitoring/: what the gateway counts.
pub mod Metrics
pub mod Prometheus
mod Tests
