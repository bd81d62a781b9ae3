-- ===== src/Strategies.antt =====
-- app/strategies/: the strategies of the backtest, as values of its strategy interface.
pub mod Dca
pub mod Retest
pub mod Levels
pub mod Entries
pub mod Phases
pub mod Safety
