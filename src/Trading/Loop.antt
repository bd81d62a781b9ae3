-- ===== src/Trading/Loop.antt =====
-- What a run of the loop over market events ends with, and the final checkpoint of a run.
use crypto_trading_system.Base.{ℕ, Option, List}
use crypto_trading_system.Decimal.{Decimal}
use crypto_trading_system.Models.{MarketEvent}
use crypto_trading_system.Execution.State.{Engine, Draw}
use crypto_trading_system.Execution.Repository
use crypto_trading_system.Execution.Positions.{IsLong}
use crypto_trading_system.Trading.State.{PaperTradingRuntime, RiskManager, Strategy}
use crypto_trading_system.Trading.Runtime.{process_events}
use crypto_trading_system.Trading.Kept.{process_events_keeps, IsLong-IsKept}

module _ {D S : Type 0} ⦃dec : Decimal D⦄ (manager : Option (RiskManager D S)) where
  -- Whatever the strategy asks for and the risk manager approves, and whichever exceptions end the
  -- loop, no sequence of market events brings an engine without negative holdings to a negative
  -- one.
  pub process_events-IsLong :
      (strategy : Option (Strategy D)) (evs : List (MarketEvent D × (ℕ → Draw)))
      (rt : PaperTradingRuntime D S)
      → IsLong rt.engine
      → IsLong (process_events strategy manager evs rt).0.engine
  process_events-IsLong strategy evs rt h =
      process_events_keeps IsLong IsLong-IsKept manager strategy evs rt h
