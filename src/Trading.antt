-- ===== src/Trading.antt =====
-- app/execution/paper_trading_runtime.py, and the risk managers that it consults.
pub mod OrderId
pub mod Managers
pub mod State
pub mod Runtime
pub mod Kept
pub mod Gate
pub mod Loop
