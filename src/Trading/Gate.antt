-- ===== src/Trading/Gate.antt =====
-- When `_process_candle` may trade, and how it counts what it has processed.
use crypto_trading_system.Base.{
  ℕ, suc, ◌≤◌, ◌≡◌, refl, false, ◌&&◌, Option, none, some, List, [], ◌∷◌, arith, ◌⊎◌, inl, inr,
}
use crypto_trading_system.Decimal.{Decimal}
use crypto_trading_system.Models.{ok, Result-cases, MarketEvent}
use crypto_trading_system.Execution.State.{Engine, ExecutionRequest, Draw, schedule}
use crypto_trading_system.Execution.Engine.{on_market_event}
use crypto_trading_system.Execution.Repository.{checkpoint, flush}
use crypto_trading_system.Trading.State.{
  PaperTradingRuntime, RiskManager, Strategy, checkpoint_runtime, validate_request, count_candle,
  checkpoint_due, reconcile_due, heartbeat, finish_candle,
}
use crypto_trading_system.Trading.Runtime.{
  handle_request, handle_requests, run_strategy, process_accepted, process_candle,
}

-- The second engine has the trades of the first.
abbrev pub SameTrades : {D : Type 0} → Engine D → Engine D → Type 0
SameTrades e e' =
    (e'.positions ≡ e.positions)
    × (e'.orders ≡ e.orders)
    × (e'.fills ≡ e.fills)
    × (e'.client_orders ≡ e.client_orders)
    × (e'.cash_balance ≡ e.cash_balance)

module _ {D S : Type 0} ⦃dec : Decimal D⦄ (manager : Option (RiskManager D S)) where
  handle_requests_refused :
      (n : ℕ) (draws : ℕ → Draw) (i : ℕ) (requests : List (ExecutionRequest D))
      (rt : PaperTradingRuntime D S)
      → ((q : ExecutionRequest D) (e : Engine D) (s : S)
          → (validate_request manager q e s).1 ≡ false)
      → (handle_requests manager n draws i requests rt).0.engine ≡ rt.engine
  unfolding handle_requests handle_request
  handle_requests_refused n draws i [] rt h = refl
  handle_requests_refused n draws i (request ∷ requests) rt h = ground (
    arith,
    h request rt.engine rt.risk,
    handle_requests_refused n draws (suc i) requests
        (handle_request manager n i (draws i) request rt).0 h,
  )

  run_strategy_blocked :
      (strategy : Option (Strategy D)) (draws : ℕ → Draw) (ev : MarketEvent D)
      (rt : PaperTradingRuntime D S)
      → ((rt.trading_enabled && rt.source_ready) ≡ false)
        ⊎ ((q : ExecutionRequest D) (e : Engine D) (s : S)
            → (validate_request manager q e s).1 ≡ false)
      → (run_strategy strategy manager draws ev rt).0.engine ≡ rt.engine
  unfolding run_strategy
  run_strategy_blocked none draws ev rt b = refl
  run_strategy_blocked (some strategy) draws ev rt (inl off) = ground arith
  run_strategy_blocked (some strategy) draws ev rt (inr h) =
      elim (Result-cases (strategy ev.candle rt.engine)) [
        | inl (x, failed) ↦ ground arith
        | inr (requests, asked) ↦
            ground (arith, handle_requests_refused ev.sequence draws 0 requests rt h)
      ]

  finish_candle_trades :
      (n : ℕ) (rt : PaperTradingRuntime D S) → SameTrades rt.engine (finish_candle n rt).0.engine
  unfolding finish_candle count_candle checkpoint_due checkpoint_runtime reconcile_due heartbeat
      checkpoint flush
  finish_candle_trades n rt = ground arith

  -- While trading is disabled, or the market source is not ready, or the risk manager refuses every
  -- request, no market event changes a position, an order, a fill or the cash, whatever the strategy
  -- asks for.
  pub process_candle_blocked :
      (strategy : Option (Strategy D)) (draws : ℕ → Draw) (ev : MarketEvent D)
      (rt : PaperTradingRuntime D S)
      → ((rt.trading_enabled && rt.source_ready) ≡ false)
        ⊎ ((q : ExecutionRequest D) (e : Engine D) (s : S)
            → (validate_request manager q e s).1 ≡ false)
      → SameTrades rt.engine (process_candle strategy manager draws ev rt).0.engine
  unfolding process_candle process_accepted on_market_event schedule
  process_candle_blocked strategy draws ev rt b =
      let rt' = record rt { engine = (on_market_event ev rt.engine).0 } in
      ground (
        arith,
        run_strategy_blocked strategy draws ev rt' b,
        finish_candle_trades ev.sequence (run_strategy strategy manager draws ev rt').0,
      )

  -- An event whose sequence number is not above the last one changes nothing at all.
  pub process_candle_duplicate :
      (strategy : Option (Strategy D)) (draws : ℕ → Draw) (ev : MarketEvent D)
      (rt : PaperTradingRuntime D S)
      → ev.sequence ≤ rt.engine.last_sequence
      → process_candle strategy manager draws ev rt ≡ (rt, ok tt)
  unfolding process_candle
  process_candle_duplicate strategy draws ev rt h = ground arith
