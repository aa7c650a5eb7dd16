-- ===== src/Tests.antt =====
-- Concrete inputs: runs of the model, and the theorems applied to them.
mod Samples
mod Sensor
mod Analysis
mod Baseline
mod Tracer
mod Sysmon
mod Process
mod Network
mod Strace
mod Command
