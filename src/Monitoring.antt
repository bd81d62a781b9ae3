-- ===== src/Monitoring.antt =====
-- app/monitoring/: the health monitors, the coordinator over them, and the heartbeat.
pub mod Monitors
pub mod Coordinator
pub mod Alarms
pub mod Gating
pub mod Heartbeat
