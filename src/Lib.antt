-- ===== src/Lib.antt =====
-- Verification of the trading system: paper trading, its risk control, its runtime and its backtest.
--
-- An application (app/runtime) goes through its life cycle, opens trading sessions by a schedule and
-- feeds market events to `PaperTradingRuntime` (app/execution/paper_trading_runtime.py). For each
-- accepted event the runtime asks the strategy for requests, puts each to a risk manager, the adapter
-- of `RiskEngine.check_trade` (app/risk/risk_engine.py), and lets the paper execution engine
-- (app/exchange/paper_execution_engine.py) fill the approved ones. The engine schedules the writes of
-- order, fill, position and runtime state, which a restart loads, and the reconciler compares books
-- and tables. The health coordinator (app/monitoring) watches the database and the risk engine,
-- and the market pipeline (app/pipeline) takes an event through indicators, regime, strategy, risk and
-- execution. The backtest (app/backtest) keeps a portfolio of its own.
--
-- Files:
--   Base          lists, dictionaries in insertion order, tests, whole numbers and lower-case words
--   Decimal       `decimal.Decimal` as an interface: operations with the laws of exact arithmetic;
--                 Decimal/Integers shows that the laws can hold
--   Models        app/models: candles, market events, rows of orders, fills and positions
--   Execution     State and Engine: `PaperExecutionEngine` and `FillSimulator`. Repository: the tables
--                 of app/database/paper_state_repository_pg.py with the columns of
--                 database/migrations, the scheduled writes, `flush`, the checkpoint, the loaders
--                 and `restore_state`. Market, Positions, Idempotence, Durable and Recovery
--                 hold the proofs, Rows their lemmas
--   Risk          Engine: the state of `RiskEngine` and its updates. Trade and Check: `check_trade`.
--                 EmergencyStop: app/risk/emergency_stop.py. Limits, Approval and State: proofs
--   Trading       State and Runtime: `PaperTradingRuntime`. OrderId: its client order ids. Managers:
--                 `RiskEngineAdapter` of app/runtime/dependencies.py and `DefaultRiskManager`. Kept,
--                 Gate and Loop: proofs
--   Reconciliation
--                 Reconciler: app/reconciliation/paper_reconciler.py. Agreement: proofs
--   Runtime       Lifecycle: app/runtime/lifecycle.py. Schedule: scheduler.py, session_manager.py.
--                 Preflight: preflight.py. Application: paper_application.py. Startup: proofs
--   Reporting     Lots, Tracker and Metrics: app/reporting/paper_pnl.py. Curve, Replay and Refinement:
--                 proofs
--   Monitoring    Monitors: database_health.py, risk_health.py, market_health.py, pipeline_health.py of
--                 app/monitoring. Coordinator: `HealthCoordinator.check_now`. Heartbeat: heartbeat.py.
--                 Alarms and Gating: proofs
--   Pipeline      State: pipeline_state.py and events.py of app/pipeline. Steps and Market: `MarketPipeline`
--                 of market_pipeline.py. Staged, Guards and Lost: proofs
--   Indicators    Slices, Ema, Rsi, Atr, Prices, Volume, Channels and Regime: app/indicators. Shape,
--                 Bounds and Verdicts: proofs
--   Strategies    Dca: app/strategies/trend_dca.py. Retest: breakout_retest.py. Phases, Levels, Entries
--                 and Safety: proofs
--   Backtest      Portfolio and Exits: app/backtest/portfolio.py. Position: app/models/trading.py.
--                 Costs: commission_model.py and slippage_model.py. Signals:
--                 app/strategies/base_strategy.py and the signals of trading.py. Orders, Engine,
--                 Volumes, Candles, Run and Summary: app/backtest/backtest_engine.py. WalkForward: the
--                 windows of walk_forward.py, Forward: the run over them. Books, Induction, Audit,
--                 Counts, Causality and Windows: proofs
--   Tests         the theorems at concrete values
--
-- Conventions. State is a record that each operation takes and gives back; an exception is the
-- `raise` of a `Result`. A dictionary is a list of entries in insertion order. Times are
-- microseconds; clock readings, identifiers that `uuid4` draws and random numbers are arguments,
-- and so are the strategy and the risk manager of a runtime, the strategy of a backtest, and the answers
-- of the application's dependencies, of the pipeline's services and of the injected health checks.
-- `Decimal` is exact: the rounding of the 28-digit context is not modelled, and a theorem that divides
-- says so where it needs an exact quotient. What a NUMERIC(20,8) column keeps of a number is a
-- parameter of the database, the function `numeric`. The database takes every statement of the paper
-- repository, also `ON CONFLICT(fill_id)`: migration 049 has only a partial index for it, while
-- `dds.paper_fills` of migration 021, which an unqualified name meets under a search path to `dds`, has
-- a unique column. Scheduled writes run in the order in which they were scheduled, and without an event
-- loop they are dropped. All recursion is structural but
-- for the digits of a number, whose fuel is above the number itself, and for the walk-forward
-- windows, whose fuel is the length of the range in seconds: each round takes at least one.
-- Wordings of messages, metrics and logging are left out.
--
-- Not modelled: network and database clients, SQL, collectors, the offline reports and scripts, the
-- replay of market data, the further variants of the strategies and the data quality reports; of
-- app/indicators the historical volatility, which is computed in binary floating point; of
-- app/monitoring the periodic task of the coordinator; of app/runtime/paper_application.py the signal
-- handling.
pub mod Base
pub mod Decimal
pub mod Models
pub mod Execution
pub mod Indicators
pub mod Reporting
pub mod Risk
pub mod Reconciliation
pub mod Trading
pub mod Runtime
pub mod Monitoring
pub mod Pipeline
pub mod Backtest
pub mod Strategies
pub mod Tests
