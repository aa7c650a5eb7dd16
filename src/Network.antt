-- ===== src/Network.antt =====
-- internal/sensor/network: the sockets of a process, polled from /proc.
pub mod Address
pub mod Parse
pub mod System
pub mod Collect
