-- ===== src/Sysmon.antt =====
-- internal/sensor/sysmon: events of the Windows event log, mapped to observations.
pub mod Parse
pub mod Map
pub mod Events
