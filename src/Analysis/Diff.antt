-- ===== src/Analysis/Diff.antt =====
-- internal/analysis/analyze.go: the comparison of one dimension per child.
pub mod Syscalls
pub mod Network
pub mod Filesystem
pub mod Registry
pub mod Process
pub mod Memory
pub mod Laws
pub mod Once
pub mod Sockets
