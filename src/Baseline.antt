-- ===== src/Baseline.antt =====
-- internal/baseline/merge.go: several runs merged into one baseline.
pub mod Maps
pub mod Accumulator
pub mod Notes
pub mod Build
