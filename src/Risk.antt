-- ===== src/Risk.antt =====
-- app/risk/risk_engine.py.
pub mod Engine
pub mod Trade
pub mod Check
pub mod Limits
pub mod Approval
pub mod State
pub mod EmergencyStop
