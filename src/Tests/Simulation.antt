-- ===== src/Tests/Simulation.antt =====
-- A backtest of three candles: a strategy that buys once, and a portfolio that is sold at the end.
use crypto_trading_system.Base.{
  ℕ, zero, suc, String, ◌≡◌, none, some, List, [], ◌∷◌, ◌++◌, length, false,
}
use crypto_trading_system.Base.Int.{ℤ, pos}
use crypto_trading_system.Decimal.Integers.{integers}
use crypto_trading_system.Risk.Engine.{RiskConfig, new_engine}
use crypto_trading_system.Backtest.Signals.{
  Bar, Answer, nothing, one, mapping, SignalMapping, Strategy, legacy,
}
use crypto_trading_system.Backtest.Orders.{BacktestConfig, BacktestEngine, Outside, new_backtest}
use crypto_trading_system.Backtest.Candles.{RunState}
use crypto_trading_system.Backtest.Run.{run, run_candles}
use crypto_trading_system.Backtest.Volumes.{average_completed_volume}
use crypto_trading_system.Backtest.Audit.{IsAudited, run-IsAudited}
use crypto_trading_system.Backtest.Causality.{run_candles_causal}

abbrev pub bar : ℕ → ℕ → ℕ → Bar ℤ (Unit {0})
bar time opened close = record {
  symbol = "BTCUSDT";
  open_time = time;
  open_price = some (pos opened);
  high = none;
  low = none;
  close = pos close;
  volume = some (pos 50);
  indicators = tt;
}

abbrev bars : List (Bar ℤ (Unit {0}))
bars = bar 1 10 11 ∷ bar 2 12 13 ∷ bar 3 14 15 ∷ []

abbrev buy_order : SignalMapping ℤ
buy_order = record {
  action = some "buy";
  symbol = none;
  price = none;
  quantity = some (pos 2);
  reason = none;
  stop_loss = none;
  take_profit = none;
  strategy = none;
  parameters_version = none;
  regime = none;
  dca_level = none;
}

-- Buys on the first candle that it sees.
abbrev buys_once : ℕ → ℕ × Answer ℤ
buys_once zero = (1, one (mapping buy_order))
buys_once (suc n) = (suc (suc n), nothing)

abbrev pub strategy : Strategy ℤ (Unit {0}) ℕ
strategy = legacy (λ candle p state. buys_once state)

abbrev pub world : Outside ℤ
world = record { uuid = λ n. "id"; random = λ n. pos 0; clock = λ n. n }

abbrev pub costs : BacktestConfig ℤ
costs = record {
  initial_balance = pos 1000;
  commission_config = record { maker_fee = pos 0; taker_fee = pos 0; minimum_fee = pos 1 };
  slippage_config = record {
    fixed_slippage = pos 0;
    random_slippage_min = pos 0;
    random_slippage_max = pos 0;
    volume_impact_threshold = pos 1;
    volume_impact_factor = pos 1;
  };
  end_position_policy = "liquidate";
}

abbrev pub limits : RiskConfig ℤ
limits = record {
  max_risk_per_trade = pos 1;
  max_position_size = pos 1;
  max_asset_exposure = pos 1;
  max_capital_utilization = pos 1;
  daily_loss_limit = pos 1;
  weekly_loss_limit = pos 1;
  max_drawdown = pos 1;
  max_open_positions = 3;
  stale_data_threshold_minutes = 5;
}

abbrev fresh : BacktestEngine ℤ
fresh = new_backtest costs (new_engine limits false none)

abbrev ended : BacktestEngine ℤ
ended = (run world strategy none bars 0 fresh).0

run-IsAudited_example : IsAudited ended
run-IsAudited_example =
    run-IsAudited world strategy none bars 0 costs (new_engine limits false none)

abbrev begun : RunState ℤ ℕ
begun = record { engine = fresh; strategy_state = 0; pending_signals = []; peak_equity = pos 1000 }

run_candles_causal_example :
    (run_candles world strategy none "id" (bars ++ (bar 4 9 9 ∷ [])) 0 bars begun
      ≡ run_candles world strategy none "id" (bars ++ []) 0 bars begun)
    × ((s : String) (lookback : ℕ)
        → average_completed_volume (bars ++ (bar 4 9 9 ∷ [])) (length bars) s lookback
          ≡ average_completed_volume (bars ++ []) (length bars) s lookback)
run_candles_causal_example =
    run_candles_causal world strategy none "id" bars (bar 4 9 9 ∷ []) [] begun
