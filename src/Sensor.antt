-- ===== src/Sensor.antt =====
-- internal/sensor/capability.go: which sensor backend a host can use.
pub mod Capability
pub mod Probe
