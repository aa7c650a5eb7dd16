-- ===== src/Context.antt =====
-- internal/context/detect.go: detection of the execution environment on Linux.
pub mod Capabilities
pub mod Version
pub mod Evidence
pub mod Detect
pub mod Paths
pub mod Laws
