-- ===== src/Tests.antt =====
-- Concrete runs of the models, on whole numbers in place of decimals.
pub mod Execution
pub mod Risk
pub mod Monitoring
pub mod Pipeline
pub mod Runtime
pub mod Backtest
pub mod Trading
pub mod Application
pub mod Reporting
pub mod Simulation
pub mod WalkForward
pub mod Indicators
pub mod Strategies
