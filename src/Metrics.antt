-- ===== src/Metrics.antt =====
-- metrics/: alerts on the samples that hosts report.
pub mod Window
pub mod Alerts
mod Tests
