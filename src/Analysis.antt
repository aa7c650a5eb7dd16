-- ===== src/Analysis.antt =====
-- internal/analysis/analyze.go: the deviation engine.
pub mod Config
pub mod Keys
pub mod Diff
pub mod Score
pub mod Order
pub mod Summary
pub mod Engine
