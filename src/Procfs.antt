-- ===== src/Procfs.antt =====
-- internal/sensor/procfs: the children and the memory of a process, polled from /proc.
pub mod Parse
pub mod Collect
pub mod Memory
