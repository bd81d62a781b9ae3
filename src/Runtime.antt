-- ===== src/Runtime.antt =====
-- app/runtime/: the application's life cycle and the trading calendar.
pub mod Preflight
pub mod Application
pub mod Startup
pub mod Lifecycle
pub mod Schedule
