-- ===== src/Schema.antt =====
-- internal/schema/baseline.go, one child for each part of the schema.
pub mod Platform
pub mod Observed
pub mod Anomaly
pub mod Baseline
