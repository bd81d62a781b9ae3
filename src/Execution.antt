-- ===== src/Execution.antt =====
-- app/exchange/paper_execution_engine.py with app/exchange/fill_simulator.py and the tables of
-- app/database/paper_state_repository_pg.py.
pub mod State
pub mod Engine
pub mod Repository
pub mod Market
pub mod Positions
pub mod Idempotence
pub mod Rows
pub mod Durable
pub mod Recovery
