-- ===== src/Ebpf.antt =====
-- internal/sensor/ebpf: what the tracer makes of the events of the kernel.
pub mod Classify
pub mod Table
pub mod Record
pub mod Tracer
pub mod Reader
pub mod Collect
pub mod Wire
