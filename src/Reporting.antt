-- ===== src/Reporting.antt =====
-- Profit and loss of paper trading: app/reporting/paper_pnl.py.
pub mod Lots
pub mod Tracker
pub mod Metrics
pub mod Curve
pub mod Replay
pub mod Refinement
