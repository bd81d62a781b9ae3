-- ===== src/Backtest.antt =====
-- app/backtest/: the simulated portfolio, its cost models and the engine that runs a strategy.
pub mod Costs
pub mod Position
pub mod Portfolio
pub mod Exits
pub mod Books
pub mod WalkForward
pub mod Forward
pub mod Windows
pub mod Signals
pub mod Orders
pub mod Engine
pub mod Volumes
pub mod Candles
pub mod Run
pub mod Summary
pub mod Induction
pub mod Audit
pub mod Counts
pub mod Causality
