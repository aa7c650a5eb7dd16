-- ===== src/Strace.antt =====
-- internal/sensor/strace: the syscalls that strace prints.
pub mod Parse
pub mod Record
